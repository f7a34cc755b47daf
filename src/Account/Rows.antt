-- ===== src/Account/Rows.antt =====
-- The rows of a database before and after the query for a client.
use crinha.Prelude.{
  ℕ, ◌^◌, ◌<◌, ◌≡◌, ◌≢◌, refl, sym, ◌∙◌, ◌==◌, ==_iff, true, Bool-cases, inl, inr, some, arith,
}
use crinha.Entity.{Cliente, Transacao}
use crinha.Db.Libpq.{Libpq, connection_ok}
use crinha.Db.State.{Db}
use crinha.Repository.ClienteRepository.FindOne.{find_answer, after_find, cliente_of, connected}
use crinha.Account.{Table, balance, is_stored, posted, posted_row}
use crinha.Account.Bank.{Bank, Shows}
use crinha.Account.Balance.{cliente_of-Shows}

-- The row of the table that the transaction leaves.
pub posted_self :
    (t : Transacao) (rows : Table) (k : ℕ) (c : Cliente)
    → t.id_cliente ≡ k
    → rows k ≡ some c
    → is_stored c t ≡ true
    → posted t rows k ≡ some (record c { saldo = balance c t })
unfolding posted posted_row
posted_self t rows k c e r h = rw ((==_iff k t.id_cliente).1 (sym e), posted) (rw r (rw h refl))

pub posted_other :
    (t : Transacao) (rows : Table) (k m : ℕ) → t.id_cliente ≡ k → m ≢ k → posted t rows m ≡ rows m
unfolding posted
posted_other t rows k m e h = elim (Bool-cases (m == t.id_cliente)) [
  | inl y ↦ absurd (h ((==_iff m t.id_cliente).0 y ∙ e))
  | inr f ↦ rw (f, posted) refl
]

module _ (pq : Libpq) (d : Db pq) (bank : Bank pq d.pool) where
  abbrev pub table : Table
  table = bank.rows d.world

  pub rows-connected :
      (w : pq.World) (m : ℕ)
      → bank.rows (connected pq (record d { world = w })).world m ≡ bank.rows w m
  rows-connected w m = elim (Bool-cases (pq.status d.pool w == connection_ok)) [
    | inl y ↦ rw y refl
    | inr f ↦ rw f (bank.resets w m)
  ]

  pub rows-after_find : (n m : ℕ) → bank.rows (after_find pq n d).world m ≡ table m
  rows-after_find n m =
      bank.clears _ _ m ∙ bank.reads n (connected pq d).world m ∙ rows-connected d.world m

  module _ (n : ℕ) (small : n < 10 ^ 9) (c : Cliente) (here : table n ≡ some c) where
    pub shown : Shows pq c (find_answer pq n d)
    shown = bank.found n (connected pq d).world c small (rows-connected d.world n ∙ here)

    pub read : cliente_of pq (find_answer pq n d) ≡ c
    read =
        let (key, l, _, s) = bank.stored n d.world c here in
        cliente_of-Shows pq (find_answer pq n d) c (omega (arith, key, small)) l s shown
