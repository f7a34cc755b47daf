-- ===== src/Repository/Rows/Read.antt =====
-- repository/: the transactions that are read from a result set.
use crinha.Prelude.{
  ℕ, zero, suc, ◌+◌, ◌^◌, ◌≤◌, ◌<◌, ◌≡◌, refl, ap, ◌∙◌, Option, some, List, [], ◌∷◌, length, take,
  get_elem?, arith, ok,
}
use crinha.Prelude.Int.{to_bits}
use crinha.Clib.Memory.{c_str}
use crinha.Clib.Memory.Copy.{c_str-text, c_str-IsText}
use crinha.Clib.Decimal.{atoi, atol}
use crinha.Util.StringUtil.{strzcpy}
use crinha.Util.StringUtil.Copy.{strzcpy_front}
use crinha.Entity.{Transacao, fresh_transacao}
use crinha.Db.Libpq.{Libpq}
use crinha.Db.Blocks.{result_set_of, row_values, all_rows}
use crinha.Repository.Fields.{field, field_u32, field_i64}
use crinha.Repository.Rows.{read_transacao, read_transacoes}

module _ (pq : Libpq) where
  open pq use {Conn, Res, World, getvalue, result_status, ntuples, nfields}

  -- The string in row `i` and column `j` of an answer.
  abbrev pub cell : Option Res → ℕ → ℕ → List ℕ
  cell res i j = c_str (getvalue res i j)

  -- What a transaction takes from a row: the strings are cut to their arrays.
  pub record IsRow (res : Option Res) (i : ℕ) (t : Transacao) : Type 0 where
    pub id_is : t.id ≡ to_bits (2 ^ 31) (atoi (cell res i 0))
    pub id_cliente_is : t.id_cliente ≡ to_bits (2 ^ 31) (atoi (cell res i 1))
    pub valor_is : t.valor ≡ atol (cell res i 2)
    pub tipo_is : c_str t.tipo ≡ take 1 (cell res i 3)
    pub descricao_is : c_str t.descricao ≡ take 20 (cell res i 4)
    pub realizada_em_is : c_str t.realizada_em ≡ take 40 (cell res i 5)

  -- The transactions of the rows from `i` on.
  abbrev pub AreRows : Option Res → ℕ → List Transacao → Type 0
  AreRows res i [] = Unit {0}
  AreRows res i (t ∷ ts) = IsRow res i t × AreRows res (i + 1) ts

  get_elem?-all_rows :
      (res : Option Res) (fields a n i k : ℕ)
      → i < n
      → a + i ≡ k
      → get_elem? (all_rows pq res fields a n) i
        ≡ some (record { fields_value = row_values pq res k 0 fields })
  get_elem?-all_rows res fields a zero i k h e = absurd (omega arith)
  get_elem?-all_rows res fields a (suc n) zero k h e =
      ap (λ r. some (record { fields_value = row_values pq res r 0 fields })) (omega arith)
  get_elem?-all_rows res fields a (suc n) (suc i) k h e =
      get_elem?-all_rows res fields (a + 1) n i k (omega arith) (omega arith)

  get_elem?-row_values :
      (res : Option Res) (i a n j k : ℕ)
      → j < n
      → a + j ≡ k
      → get_elem? (row_values pq res i a n) j ≡ some (cell res i k)
  get_elem?-row_values res i a zero j k h e = absurd (omega arith)
  get_elem?-row_values res i a (suc n) zero k h e = ap (λ c. some (cell res i c)) (omega arith)
  get_elem?-row_values res i a (suc n) (suc j) k h e =
      get_elem?-row_values res i (a + 1) n j k (omega arith) (omega arith)

  field-cell :
      (res : Option Res) (m fields i j : ℕ)
      → i ≤ m
      → j < fields
      → field (result_set_of pq res (suc m) fields) i j ≡ ok (cell res i j)
  unfolding field
  field-cell res m fields i j h k =
      rw (get_elem?-all_rows res fields 0 (suc m) i i (omega arith) (omega arith))
        (rw (get_elem?-row_values res i 0 fields j j k (omega arith)) refl)

  cut :
      (dest s : List ℕ) (size : ℕ)
      → size < length dest
      → (out : List ℕ) × (strzcpy dest 0 (c_str s) size ≡ ok out)
        × (c_str out ≡ take size (c_str s))
  cut dest s size h =
      let (out, e, f) = strzcpy_front dest (c_str s) size h in
      (out, e, f ∙ ap (take size) (c_str-text (c_str s) (c_str-IsText s)))

  read-IsRow :
      (res : Option Res) (m i : ℕ)
      → i ≤ m
      → (t : Transacao) × (read_transacao (result_set_of pq res (suc m) 6) i ≡ ok t) × IsRow res i t
  unfolding read_transacao field_u32 field_i64
  read-IsRow res m i h =
      let (a, ea, fa) = cut fresh_transacao.tipo (getvalue res i 3) 1 (omega arith) in
      let (b, eb, fb) = cut fresh_transacao.descricao (getvalue res i 4) 20 (omega arith) in
      let (c, ec, fc) = cut fresh_transacao.realizada_em (getvalue res i 5) 40 (omega arith) in
      (
        record {
          id = to_bits (2 ^ 31) (atoi (cell res i 0));
          id_cliente = to_bits (2 ^ 31) (atoi (cell res i 1));
          valor = atol (cell res i 2);
          tipo = a;
          descricao = b;
          realizada_em = c;
        },
        rw
            (
              field-cell res m 6 i 0 h (omega arith),
              field-cell res m 6 i 1 h (omega arith),
              field-cell res m 6 i 2 h (omega arith),
              field-cell res m 6 i 3 h (omega arith),
              field-cell res m 6 i 4 h (omega arith),
              field-cell res m 6 i 5 h (omega arith),
            )
            (rw (ea, eb, ec) refl),
        record {
          id_is = refl;
          id_cliente_is = refl;
          valor_is = refl;
          tipo_is = fa;
          descricao_is = fb;
          realizada_em_is = fc;
        },
      )

  pub read_AreRows :
      (res : Option Res) (m n i : ℕ)
      → i + n ≤ suc m
      → (ts : List Transacao) × (read_transacoes (result_set_of pq res (suc m) 6) i n ≡ ok ts)
        × (length ts ≡ n)
        × AreRows res i ts
  unfolding read_transacoes
  read_AreRows res m zero i h = ([], refl, refl, tt)
  read_AreRows res m (suc n) i h =
      let (t, e, r) = read-IsRow res m i (omega arith) in
      let (ts, e', l, rs) = read_AreRows res m n (i + 1) (omega arith) in
      (t ∷ ts, rw (e, e', read_transacoes) refl, ap suc l, (r, rs))
