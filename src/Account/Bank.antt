-- ===== src/Account/Bank.antt =====
-- The database behind libpq, as far as the posting of transactions relies on it.
use crinha.Prelude.{
  ℕ, ◌^◌, ◌<◌, ◌≤◌, ◌≡◌, ◌≢◌, true, false, Option, none, some, List, [], ◌∷◌, length,
}
use crinha.Prelude.Int.{IsInt64, IsInt32, neg_ℤ}
use crinha.Clib.Memory.{c_str}
use crinha.Clib.Decimal.{decimal, decimal_ℤ}
use crinha.Entity.{Cliente, Transacao}
use crinha.Db.Libpq.{Libpq, pgres_tuples_ok}
use crinha.Repository.Sql.{find_one_query, find_last_10_query, insert_async_query}
use crinha.Account.{Table, posted}

-- ASCII without a quote (39), which ends the literal, nor a NUL.
abbrev pub IsPlain : List ℕ → Type 0
IsPlain [] = Unit {0}
IsPlain (c ∷ cs) = (0 < c) × (c < 128) × (c ≢ 39) × IsPlain cs

-- What the columns of `transacao` can hold, for a client's number below 10^9.
pub record IsPostable (t : Transacao) : Type 0 where
  pub number : t.id_cliente < 10 ^ 9
  pub valor : IsInt32 t.valor
  pub tipo : length (c_str t.tipo) ≡ 1
  pub tipo_plain : IsPlain (c_str t.tipo)
  pub descricao : length (c_str t.descricao) ≤ 10
  pub descricao_plain : IsPlain (c_str t.descricao)

module _ (pq : Libpq) where
  open pq use {
    Conn, Res, World, reset, exec, send_query, get_result, clear, result_status, ntuples, nfields,
    getvalue,
  }

  -- One row with the three columns that the query names, as text.
  pub record Shows (c : Cliente) (res : Option Res) : Type 0 where
    pub status : result_status res ≡ pgres_tuples_ok
    pub tuples : ntuples res ≡ 1
    pub fields : nfields res ≡ 3
    pub id : getvalue res 0 0 ≡ decimal c.id
    pub limite : getvalue res 0 1 ≡ decimal_ℤ c.limite
    pub saldo : getvalue res 0 2 ≡ decimal_ℤ c.saldo

  -- A database that answers on a connection. Reading, resetting and draining the connection leave its
  -- rows; a command that is sent is run as `posted` says, and one that is not has no effect.
  pub record Bank (conn : Option Conn) : Type 0 where
    pub rows : World → Table
    pub resets : (w : World) (n : ℕ) → rows (reset conn w) n ≡ rows w n
    pub clears : (r : Option Res) (w : World) (n : ℕ) → rows (clear r w) n ≡ rows w n
    pub drains : (w : World) (n : ℕ) → rows (get_result conn w).1 n ≡ rows w n
    pub reads : (k : ℕ) (w : World) (n : ℕ) → rows (exec conn (find_one_query k) w).1 n ≡ rows w n
    pub lists :
        (k : ℕ) (w : World) (n : ℕ) → rows (exec conn (find_last_10_query k) w).1 n ≡ rows w n
    pub found :
        (k : ℕ) (w : World) (c : Cliente)
        → k < 10 ^ 9
        → rows w k ≡ some c
        → Shows c (exec conn (find_one_query k) w).0
    pub missing :
        (k : ℕ) (w : World)
        → k < 10 ^ 9
        → rows w k ≡ none
        → (result_status (exec conn (find_one_query k) w).0 ≡ pgres_tuples_ok)
          × (ntuples (exec conn (find_one_query k) w).0 ≡ 0)
    -- The columns are an integer and two of 64 bits; chk_saldo negates the limit.
    pub stored :
        (k : ℕ) (w : World) (c : Cliente)
        → rows w k ≡ some c
        → (c.id ≡ k) × IsInt64 c.limite × IsInt64 (neg_ℤ c.limite) × IsInt64 c.saldo
    pub posts :
        (t : Transacao) (w : World)
        → IsPostable t
        → (send_query conn (insert_async_query t) w).0 ≡ true
        → (n : ℕ) → rows (send_query conn (insert_async_query t) w).1 n ≡ posted t (rows w) n
    pub not_sent :
        (t : Transacao) (w : World)
        → (send_query conn (insert_async_query t) w).0 ≡ false
        → (n : ℕ) → rows (send_query conn (insert_async_query t) w).1 n ≡ rows w n
