-- ===== src/Tests/BankSql.antt =====
-- Reading the SQL texts of repository/: the client of a query, and the change that a command asks for.
use crinha.Prelude.{
  ℕ, suc, ◌^◌, ◌<◌, ◌≡◌, refl, ap, ◌∙◌, ◌==◌, ==_iff, true, false, Bool-cases, inl, inr, List, [],
  ◌∷◌, ◌++◌, append_assoc, append-nil, codes, drop, get_or, if◌then◌else◌, arith,
}
use crinha.Prelude.Int.{ℤ, pos, negsuc, to_bits, wrap32, wrap32_in_range, IsInt64}
use crinha.Clib.Memory.{isdigit}
use crinha.Clib.Decimal.{decimal, decimal_ℤ, atoi, atol}
use crinha.Clib.Decimal.RoundTrip.{AllDigits, decimal-AllDigits, atol-decimal_ℤ, atoi-decimal_ℤ}
use crinha.Entity.{Transacao, fresh_transacao}
use crinha.Repository.Sql.{
  find_one_query, insert_async_query, update_command, insert_command, operacao, print_d,
}
use crinha.Controller.Validation.{is_credito}

-- The bytes before a stop, and those behind it.
unfoldable pub until : ℕ → List ℕ → List ℕ
until stop [] = []
until stop (c ∷ cs) = let rest = until stop cs in if c == stop then [] else c ∷ rest

unfoldable pub beyond : ℕ → List ℕ → List ℕ
beyond stop [] = []
beyond stop (c ∷ cs) = let rest = beyond stop cs in if c == stop then cs else rest

abbrev Lacks : ℕ → List ℕ → Type 0
Lacks stop [] = Unit {0}
Lacks stop (c ∷ cs) = ((c == stop) ≡ false) × Lacks stop cs

until-append : (stop : ℕ) (xs ys : List ℕ) → Lacks stop xs → until stop (xs ++ stop ∷ ys) ≡ xs
unfolding until
until-append stop [] ys h = rw ((==_iff stop stop).1 refl, until) refl
until-append stop (x ∷ xs) ys h = rw (h.0, until) (ap (λ t. x ∷ t) (until-append stop xs ys h.1))

beyond-append : (stop : ℕ) (xs ys : List ℕ) → Lacks stop xs → beyond stop (xs ++ stop ∷ ys) ≡ ys
unfolding beyond
beyond-append stop [] ys h = rw ((==_iff stop stop).1 refl, beyond) refl
beyond-append stop (x ∷ xs) ys h = rw (h.0, beyond) (beyond-append stop xs ys h.1)

digits-Lacks : (stop : ℕ) (xs : List ℕ) → isdigit stop ≡ false → AllDigits xs → Lacks stop xs
digits-Lacks stop [] h a = tt
digits-Lacks stop (x ∷ xs) h a = (differ x stop h a.0, digits-Lacks stop xs h a.1)
  where
    differ : (c s : ℕ) → isdigit s ≡ false → isdigit c ≡ true → (c == s) ≡ false
    differ c s h k = ground arith

decimal_ℤ-Lacks :
    (stop : ℕ) (z : ℤ) → isdigit stop ≡ false → (b'-' == stop) ≡ false → Lacks stop (decimal_ℤ z)
unfolding decimal_ℤ
decimal_ℤ-Lacks stop (pos n) h m = digits-Lacks stop (decimal n) h (decimal-AllDigits n)
decimal_ℤ-Lacks stop (negsuc n) h m =
    (m, digits-Lacks stop (decimal (suc n)) h (decimal-AllDigits (suc n)))

-- The number of a client in a text.
abbrev key_of : List ℕ → ℕ
key_of s = to_bits (2 ^ 31) (atoi s)

key_of-print_d : (k : ℕ) → k < 10 ^ 9 → key_of (print_d k) ≡ k
unfolding print_d
key_of-print_d k h =
    ap (λ z. key_of (decimal_ℤ z)) (wrap32_in_range (pos k) (omega arith))
    ∙ ap (to_bits (2 ^ 31)) (atoi-decimal_ℤ (pos k) (omega arith))
    ∙ ground arith

print_d-Lacks : (k : ℕ) → Lacks 59 (print_d k)
unfolding print_d
print_d-Lacks k = decimal_ℤ-Lacks 59 (wrap32 (pos k)) refl refl

-- What a client's query asks for.
unfoldable pub asked : List ℕ → ℕ
asked q = key_of (drop 49 q)

pub asked-find_one : (k : ℕ) → k < 10 ^ 9 → asked (find_one_query k) ≡ k
unfolding asked find_one_query
asked-find_one k h = ap key_of (append-nil (print_d k)) ∙ key_of-print_d k h

-- The change that a command asks for: the sign, the amount and the client.
unfoldable pub asked_change : List ℕ → Transacao
unfolding until beyond
asked_change q =
    let rest = drop 35 q in
    record fresh_transacao {
      id_cliente = key_of (until 59 (drop 11 (beyond 32 rest)));
      valor = atol (until 32 rest);
      tipo = if get_or q 33 0 == b'+' then codes "c" else codes "d";
    }

-- The command from the amount on.
behind : Transacao → List ℕ
behind t = 59 ∷ (insert_command t ++ [])

from_amount :
    (t : Transacao)
    → drop 35 (insert_async_query t)
      ≡ decimal_ℤ t.valor ++ 32 ∷ (codes "where id = " ++ (print_d t.id_cliente ++ behind t))
unfolding insert_async_query update_command behind
from_amount t =
    append_assoc (decimal_ℤ t.valor) _ _
    ∙ ap (λ x. decimal_ℤ t.valor ++ 32 ∷ (codes "where id = " ++ x))
        (append_assoc (print_d t.id_cliente) _ _)

pub asked_valor :
    (t : Transacao) → IsInt64 t.valor → (asked_change (insert_async_query t)).valor ≡ t.valor
unfolding asked_change
asked_valor t h =
    ap (λ x. atol (until 32 x)) (from_amount t)
    ∙ ap atol (until-append 32 (decimal_ℤ t.valor) _ (decimal_ℤ-Lacks 32 t.valor refl refl))
    ∙ atol-decimal_ℤ t.valor h

pub asked_client :
    (t : Transacao)
    → t.id_cliente < 10 ^ 9
    → (asked_change (insert_async_query t)).id_cliente ≡ t.id_cliente
unfolding asked_change behind
asked_client t h =
    ap (λ x. key_of (until 59 (drop 11 (beyond 32 x)))) (from_amount t)
    ∙ ap (λ x. key_of (until 59 (drop 11 x)))
        (beyond-append 32 (decimal_ℤ t.valor) _ (decimal_ℤ-Lacks 32 t.valor refl refl))
    ∙ ap key_of (until-append 59 (print_d t.id_cliente) _ (print_d-Lacks t.id_cliente))
    ∙ key_of-print_d t.id_cliente h

pub asked_credito :
    (t : Transacao) → is_credito (asked_change (insert_async_query t)) ≡ is_credito t
unfolding asked_change insert_async_query update_command operacao
asked_credito t = elim (Bool-cases (is_credito t)) [ inl y ↦ rw y refl | inr f ↦ rw f refl ]
