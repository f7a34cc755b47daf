-- ===== src/Account.antt =====
-- What the server promises to its clients: accounts with a limit, and what a posted transaction does to
-- them and is answered. The table `cliente`, its constraint, and the two commands of
-- repository/transacao_repository.c on it are those of stack/init.sql.
pub mod Bank
pub mod Reply
pub mod Balance
pub mod Rows
pub mod Extrato
pub mod Statement
pub mod Posting
pub mod Saving
pub mod History
pub mod Service
use crinha.Prelude.{
  ℕ, ◌+◌, ◌≡◌, ◌≢◌, ◌==◌, ◌&&◌, ◌^◌, ltb, leb, not, if◌then◌else◌, Bool, true, false, Option, none,
  some, List, [], ◌∷◌, codes, joined, ◌<◌, ◌++◌,
}
use crinha.Prelude.Int.{ℤ, pos_part, neg_part, ◌+ℤ◌, ◌-ℤ◌, ◌≤ℤ◌, ltb_ℤ, neg_ℤ, wrap32}
use crinha.Clib.Memory.{c_str}
use crinha.Clib.Decimal.{decimal_ℤ}
use crinha.Entity.{Cliente, Transacao}
use crinha.Router.{http_not_found, http_unprocessable_entity}
use crinha.Controller.Validation.{is_credito}
use crinha.Controller.Response.{http_200_json}

-- The rows by their key.
abbrev pub Table : Type 0
Table = ℕ → Option Cliente

-- The balance that a transaction leaves.
unfoldable pub balance : Cliente → Transacao → ℤ
balance c t = if is_credito t then c.saldo +ℤ t.valor else c.saldo -ℤ t.valor

abbrev pub fits : ℕ → ℤ → Bool
fits half z = ltb (pos_part z) half && leb (neg_part z) half

-- `valor` is an integer of 32 bits, `saldo` one of 64, and chk_saldo is saldo >= (-limite).
unfoldable pub is_stored : Cliente → Transacao → Bool
unfolding balance neg_ℤ
is_stored c t =
    fits (2 ^ 31) t.valor
    && fits (2 ^ 63) (balance c t)
    && not (ltb_ℤ (balance c t) (neg_ℤ c.limite))

-- Both commands, or neither.
unfoldable pub posted_row : Transacao → Option Cliente → Option Cliente
unfolding is_stored balance
posted_row t none = none
posted_row t (some c) = if is_stored c t then some (record c { saldo = balance c t }) else some c

unfoldable pub posted : Transacao → Table → Table
unfolding posted_row
posted t table n = if n == t.id_cliente then posted_row t (table n) else table n

abbrev quoted : List ℕ → List ℕ
quoted s = b'"' ∷ s ++ b'"' ∷ []

-- {"limite":a,"saldo":b}
abbrev pub saldo_pieces : ℤ → ℤ → List (List ℕ)
unfolding decimal_ℤ
saldo_pieces a b =
    codes "{"
    ∷ quoted (codes "limite")
    ∷ codes ":"
    ∷ decimal_ℤ a
    ∷ codes ","
    ∷ quoted (codes "saldo")
    ∷ codes ":"
    ∷ decimal_ℤ b
    ∷ codes "}"
    ∷ []

unfoldable pub saldo_json : ℤ → ℤ → List ℕ
unfolding saldo_pieces
saldo_json a b = joined (saldo_pieces a b)

-- The body of the answer: of each number the low 32 bits.
abbrev pub saldo_text : Cliente → List ℕ
saldo_text c = saldo_json (wrap32 c.limite) (wrap32 c.saldo)

abbrev pub AgreeExcept : ℕ → Table → Table → Type 0
AgreeExcept k before after = (n : ℕ) → n ≢ k → after n ≡ before n

-- What a transaction posted for client `k` does, and its answer; `sent` says whether libpq takes the
-- command, if there is one.
pub data SaveStep (k : ℕ) (t : Transacao) (before after : Table) (sent : Bool)
    : List ℕ → Type 0 where
  unknown :
      before k ≡ none
      → ((n : ℕ) → after n ≡ before n)
      → SaveStep k t before after sent http_not_found
  over_limit :
      {c : Cliente}
      → before k ≡ some c
      → is_credito t ≡ false
      → pos_part (balance c t) + neg_part (neg_ℤ c.limite)
        < pos_part (neg_ℤ c.limite) + neg_part (balance c t)
      → ((n : ℕ) → after n ≡ before n)
      → SaveStep k t before after sent http_unprocessable_entity
  unsent :
      {c : Cliente}
      → sent ≡ false
      → before k ≡ some c
      → neg_ℤ c.limite ≤ℤ balance c t
      → ((n : ℕ) → after n ≡ before n)
      → SaveStep k t before after sent http_unprocessable_entity
  accepted :
      {c c' : Cliente}
      → sent ≡ true
      → before k ≡ some c
      → after k ≡ some c'
      → c'.saldo ≡ balance c t
      → c'.limite ≡ c.limite
      → neg_ℤ c.limite ≤ℤ balance c t
      → AgreeExcept k before after
      → SaveStep k t before after sent (http_200_json (saldo_text c'))
