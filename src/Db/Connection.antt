-- ===== src/Db/Connection.antt =====
-- util/db_connection.c: connecting, and the pool.
use crinha.Prelude.{
  ℕ, zero, suc, ◌==◌, if◌then◌else◌, Option, none, some, List, Exec, ok, fault, exit_failure,
  out_of_fuel,
}
use crinha.Prelude.Int.{ℤ}
use crinha.Db.Libpq.{Libpq, connection_ok, connection_bad}
use crinha.Db.State.{Db, M}

module _ (pq : Libpq) where
  open pq use {Conn, World, connectdb, finish, status, reset}

  unfoldable pub db_get_lib_version : ℤ
  db_get_lib_version = pq.lib_version

  unfoldable pub db_get_server_version : Option Conn → World → ℤ
  db_get_server_version = pq.server_version

  -- The loop of `db_connect`; a second's sleep and the log are no part of the state.
  unfoldable pub db_connect_loop : ℕ → List ℕ → Option Conn → World → Exec (Option Conn × World)
  db_connect_loop zero text conn w = fault out_of_fuel
  db_connect_loop (suc fuel) text conn w =
      let (again, w') = connectdb text w in
      let rest = db_connect_loop fuel text again w' in
      if status conn w == connection_bad then rest else ok (conn, w)

  unfoldable pub db_connect : ℕ → List ℕ → World → Exec (Option Conn × World)
  unfolding db_connect_loop
  db_connect fuel text w = let (conn, w') = connectdb text w in db_connect_loop fuel text conn w'

  unfoldable pub db_disconnect : Conn → World → World
  db_disconnect conn = finish conn

  -- A connection is kept only if there is none.
  unfoldable pub db_add_to_pool : Option Conn → Db pq → Db pq
  db_add_to_pool conn d = elim d.pool [
    | none ↦ elim conn [ none ↦ d | some c ↦ record d { pool = some c } ]
    | some _ ↦ d
  ]

  unfoldable pub db_init_pool : ℕ → Option (List ℕ) → M (Db pq) (Unit {0})
  unfolding db_connect db_add_to_pool
  db_init_pool fuel none d = fault exit_failure
  db_init_pool fuel (some text) d = elim (db_connect fuel text d.world) [
    | ok (conn, w) ↦ ok (tt, db_add_to_pool conn (record d { world = w }))
    | fault e ↦ fault e
  ]

  unfoldable pub db_close_pool : Db pq → Db pq
  unfolding db_disconnect
  db_close_pool d = elim d.pool [ none ↦ d | some c ↦ record d { world = db_disconnect c d.world } ]

  -- A connection that is not usable is reset, once, and handed out whatever came of it.
  unfoldable pub db_get_connection : M (Db pq) (Option Conn)
  db_get_connection d =
      if status d.pool d.world == connection_ok
      then ok (d.pool, d)
      else ok (d.pool, record d { world = reset d.pool d.world })
