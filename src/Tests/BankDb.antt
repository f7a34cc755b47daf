-- ===== src/Tests/BankDb.antt =====
-- A database that runs the texts of repository/ on a table of clients.
use crinha.Prelude.{
  subst, ℕ, zero, suc, ◌^◌, ◌<◌, ◌≡◌, refl, ap, ◌∙◌, ◌==◌, ==_iff, ◌&&◌, ◌≤◌, not, Bool, true,
  false, Bool-cases, inl, inr, Option, none, some, List, [], if◌then◌else◌, arith,
}
use crinha.Prelude.Int.{ℤ, pos, neg_ℤ, ltb_ℤ, ◌+ℤ◌, ◌-ℤ◌, pos_part, neg_part, IsInt64}
use crinha.Clib.Decimal.{decimal, decimal_ℤ}
use crinha.Entity.{Cliente, Transacao}
use crinha.Db.Libpq.{Libpq, Drains, pgres_tuples_ok}
use crinha.Repository.Sql.{find_one_query, insert_async_query}
use crinha.Controller.Validation.{is_credito}
use crinha.Account.{Table, balance, fits, is_stored, posted, posted_row}
use crinha.Account.Bank.{Bank, Shows, IsPostable}
use crinha.Tests.BankSql.{
  asked, asked-find_one, asked_change, asked_valor, asked_client, asked_credito,
}

balance_same :
    (t u : Transacao) (c : Cliente)
    → is_credito t ≡ is_credito u
    → t.valor ≡ u.valor
    → balance c t ≡ balance c u
unfolding balance
balance_same t u c k v =
    ap (λ b. if b then c.saldo +ℤ t.valor else c.saldo -ℤ t.valor) k
    ∙ ap (λ z. if is_credito u then c.saldo +ℤ z else c.saldo -ℤ z) v

posted_row_same :
    (t u : Transacao) (o : Option Cliente)
    → is_credito t ≡ is_credito u
    → t.valor ≡ u.valor
    → posted_row t o ≡ posted_row u o
unfolding posted_row is_stored
posted_row_same t u none k v = refl
posted_row_same t u (some c) k v =
    ap (λ z. stored_at z (balance c t)) v ∙ ap (stored_at u.valor) (balance_same t u c k v)
  where
    stored_at : ℤ → ℤ → Option Cliente
    stored_at v b =
        if fits (2 ^ 31) v && fits (2 ^ 63) b && not (ltb_ℤ b (neg_ℤ c.limite))
        then some (record c { saldo = b })
        else some c

posted_same :
    (t u : Transacao) (table : Table) (n : ℕ)
    → is_credito t ≡ is_credito u
    → t.valor ≡ u.valor
    → t.id_cliente ≡ u.id_cliente
    → posted t table n ≡ posted u table n
unfolding posted
posted_same t u table n c v k =
    ap (λ x. if n == x then posted_row t (table n) else table n) k
    ∙ ap (λ x. if n == u.id_cliente then x else table n) (posted_row_same t u (table n) c v)

-- A table whose rows are those that the columns can hold.
unfoldable pub is_row : ℕ → Cliente → Bool
unfolding neg_ℤ
is_row k c =
    (c.id == k)
    && (fits (2 ^ 63) c.limite && (fits (2 ^ 63) (neg_ℤ c.limite) && fits (2 ^ 63) c.saldo))

unfoldable pub checked : ℕ → Option Cliente → Option Cliente
unfolding is_row
checked k none = none
checked k (some c) = if is_row k c then some c else none

unfoldable pub bank_rows : Table → Table
unfolding checked
bank_rows w k = checked k (w k)

both_true : (a b : Bool) → (a && b) ≡ true → (a ≡ true) × (b ≡ true)
both_true a b h = ground arith

fits_bounds : (half : ℕ) (z : ℤ) → fits half z ≡ true → (pos_part z < half) × (neg_part z ≤ half)
fits_bounds half z h = (ground arith, ground arith)

is_row_lem :
    (k : ℕ) (c : Cliente)
    → is_row k c ≡ true
    → (c.id ≡ k) × IsInt64 c.limite × IsInt64 (neg_ℤ c.limite) × IsInt64 c.saldo
unfolding is_row
is_row_lem k c h =
    let (a, h1) = both_true (c.id == k) _ h in
    let (b, h2) = both_true (fits (2 ^ 63) c.limite) _ h1 in
    let (m, s) = both_true (fits (2 ^ 63) (neg_ℤ c.limite)) _ h2 in
    (
      (==_iff c.id k).0 a,
      fits_bounds (2 ^ 63) c.limite b,
      fits_bounds (2 ^ 63) (neg_ℤ c.limite) m,
      fits_bounds (2 ^ 63) c.saldo s,
    )

is_row_posted :
    (t : Transacao) (k : ℕ) (c : Cliente)
    → is_row k c ≡ true
    → is_stored c t ≡ true
    → is_row k (record c { saldo = balance c t }) ≡ true
unfolding is_row is_stored
is_row_posted t k c r s =
    let (a, h1) = both_true (c.id == k) _ r in
    let (b, h2) = both_true (fits (2 ^ 63) c.limite) _ h1 in
    let (m, _) = both_true (fits (2 ^ 63) (neg_ℤ c.limite)) _ h2 in
    let (s1, _) = both_true (fits (2 ^ 31) t.valor && fits (2 ^ 63) (balance c t)) _ s in
    let (_, f) = both_true (fits (2 ^ 31) t.valor) _ s1 in rw (a, b, m, f) refl

checked-posted_row :
    (t : Transacao) (k : ℕ) (o : Option Cliente)
    → checked k (posted_row t (checked k o)) ≡ posted_row t (checked k o)
unfolding checked posted_row
checked-posted_row t k none = refl
checked-posted_row t k (some c) = elim (Bool-cases (is_row k c)) [
  | inr f ↦ rw (f, checked) refl
  | inl y ↦ elim (Bool-cases (is_stored c t)) [
    | inr f ↦ rw (y, checked) (rw (f, posted_row) (rw (y, checked) refl))
    | inl s ↦ rw (y, checked) (rw (s, posted_row) (rw (is_row_posted t k c y s, checked) refl))
  ]
]

-- A client's row in answer to a query; a command is run on the rows.
unfoldable pub answer_of : Option Cliente → ℕ → ℕ → List ℕ
unfolding decimal_ℤ
answer_of none i j = []
answer_of (some c) i zero = decimal c.id
answer_of (some c) i (suc zero) = decimal_ℤ c.limite
answer_of (some c) i (suc (suc j)) = decimal_ℤ c.saldo

abbrev row_of : Option (Option Cliente) → Option Cliente
row_of none = none
row_of (some o) = o

abbrev count_of : Option Cliente → ℕ
count_of none = 0
count_of (some c) = 1

unfoldable pub run_query : List ℕ → Table → Option Cliente
unfolding checked asked
run_query q w = bank_rows w (asked q)

unfoldable pub run_command : List ℕ → Table → Table
unfolding checked asked_change posted
run_command q w = posted (asked_change q) (bank_rows w)

abbrev pub bank_libpq : Libpq
bank_libpq = record {
  Conn = Unit {0};
  Res = Option Cliente;
  World = Table;
  lib_version = pos 150000;
  server_version = λ c w. pos 150000;
  connectdb = λ text w. (some tt, w);
  finish = λ c w. w;
  status = λ c w. 0;
  reset = λ c w. w;
  exec = λ c q w. (some (run_query q w), w);
  send_query = λ c q w. (true, run_command q w);
  get_result = λ c w. (none, w);
  clear = λ r w. w;
  result_status = λ r. 2;
  ntuples = λ r. count_of (row_of r);
  nfields = λ r. 3;
  getvalue = λ r. answer_of (row_of r);
  pending = λ c w. 0;
}

pub bank_libpq-Drains : Drains bank_libpq
bank_libpq-Drains = record { falls = λ c w w' r h. cc }

shown : (c : Cliente) (o : Option Cliente) → o ≡ some c → Shows bank_libpq c (some o)
unfolding answer_of
shown c none e = cc
shown c (some a) e =
    let same : a ≡ c = injective e in
    record {
      status = refl;
      tuples = refl;
      fields = refl;
      id = ap (λ (x : Cliente). decimal x.id) same;
      limite = ap (λ (x : Cliente). decimal_ℤ x.limite) same;
      saldo = ap (λ (x : Cliente). decimal_ℤ x.saldo) same;
    }
  where
    injective : {x y : Cliente} → some x ≡ some y → x ≡ y
    injective h = cc

checked_row : (k : ℕ) (o : Option Cliente) (c : Cliente) → checked k o ≡ some c → is_row k c ≡ true
unfolding checked
checked_row k none c e = cc
checked_row k (some a) c e = elim (Bool-cases (is_row k a)) [
  | inl y ↦ subst (λ x. is_row k x ≡ true) (injective (rw (y, checked) at e)) y
  | inr f ↦ absurd (nothing (rw (f, checked) at e))
]
  where
    injective : {x y : Cliente} → some x ≡ some y → x ≡ y
    injective h = cc

    nothing : {x : Cliente} → none ≡ some x → ⊥
    nothing h = cc

checked_twice : (k : ℕ) (o : Option Cliente) → checked k (checked k o) ≡ checked k o
unfolding checked
checked_twice k none = refl
checked_twice k (some c) = elim (Bool-cases (is_row k c)) [
  | inl y ↦ rw (y, checked) (rw (y, checked) refl)
  | inr f ↦ rw (f, checked) refl
]

checked-posted :
    (t : Transacao) (w : Table) (n : ℕ)
    → checked n (posted t (bank_rows w) n) ≡ posted t (bank_rows w) n
unfolding posted bank_rows
checked-posted t w n = elim (Bool-cases (n == t.id_cliente)) [
  | inl y ↦ rw (y, posted) (checked-posted_row t n (w n))
  | inr f ↦ rw (f, posted) (checked_twice n (w n))
]

pub found_lem :
    (k : ℕ) (w : Table) (c : Cliente)
    → k < 10 ^ 9
    → bank_rows w k ≡ some c
    → Shows bank_libpq c (some (run_query (find_one_query k) w))
unfolding run_query
found_lem k w c small e =
    shown c (run_query (find_one_query k) w) (ap (bank_rows w) (asked-find_one k small) ∙ e)

pub missing_lem :
    (k : ℕ) (w : Table)
    → k < 10 ^ 9
    → bank_rows w k ≡ none
    → (2 ≡ pgres_tuples_ok) × (count_of (run_query (find_one_query k) w) ≡ 0)
unfolding run_query
missing_lem k w small e = (refl, ap count_of (ap (bank_rows w) (asked-find_one k small) ∙ e))

pub stored_row :
    (k : ℕ) (w : Table) (c : Cliente)
    → bank_rows w k ≡ some c
    → (c.id ≡ k) × IsInt64 c.limite × IsInt64 (neg_ℤ c.limite) × IsInt64 c.saldo
unfolding bank_rows
stored_row k w c e = is_row_lem k c (checked_row k (w k) c e)

pub posts_lem :
    (t : Transacao) (w : Table)
    → IsPostable t
    → (n : ℕ) → bank_rows (run_command (insert_async_query t) w) n ≡ posted t (bank_rows w) n
unfolding bank_rows run_command
posts_lem t w p n =
    checked-posted (asked_change (insert_async_query t)) w n
    ∙ posted_same (asked_change (insert_async_query t)) t (bank_rows w) n (asked_credito t)
        (asked_valor t (omega (arith, p.valor))) (asked_client t p.number)

pub is_sent : true ≡ false → ⊥
is_sent h = cc

abbrev pub bank_libpq-Bank : Bank bank_libpq (some tt)
bank_libpq-Bank = record {
  rows = bank_rows;
  resets = λ w n. refl;
  clears = λ r w n. refl;
  drains = λ w n. refl;
  reads = λ k w n. refl;
  lists = λ k w n. refl;
  found = found_lem;
  missing = missing_lem;
  stored = stored_row;
  posts = λ t w p sent n. posts_lem t w p n;
  not_sent = λ t w e n. absurd (is_sent e);
}
