-- ===== src/Db/Query.antt =====
-- util/db_connection.c: running a query, a command, and a command without waiting for it.
use crinha.Prelude.{
  ℕ, zero, suc, ◌==◌, if◌then◌else◌, Bool, Option, none, some, List, Exec, ok, fault, out_of_fuel,
}
use crinha.Db.Libpq.{Libpq, pgres_tuples_ok, pgres_command_ok}
use crinha.Db.State.{Db, M, ◌>>=◌, ◌>>◌, pure, touch}
use crinha.Db.ResultSet.{DbResultSet, db_create_result_set}

module _ (pq : Libpq) where
  open pq use {
    Conn, Res, World, exec, send_query, get_result, clear, result_status, ntuples, nfields, pending,
  }

  abbrev run_exec : Option Conn → List ℕ → M (Db pq) (Option Res)
  run_exec conn query d = let (res, w) = exec conn query d.world in ok (res, record d { world = w })

  -- NULL unless the query returned rows.
  unfoldable pub copy_result : Option Res → M (Db pq) (Option DbResultSet)
  copy_result res =
      if result_status res == pgres_tuples_ok
      then (do rs ← db_create_result_set pq res (ntuples res) (nfields res); pure (some rs))
      else pure none

  -- NULL unless the query returned rows.
  unfoldable pub db_query : Option Conn → List ℕ → M (Db pq) (Option DbResultSet)
  db_query conn query = do
    res ← run_exec conn query
    result_set ← copy_result res
    touch (clear res)
    pure result_set

  unfoldable pub db_execute : Option Conn → List ℕ → M (Db pq) Bool
  db_execute conn query = do
    res ← run_exec conn query
    touch (clear res)
    pure (result_status res == pgres_command_ok)

  -- `while ((res = PQgetResult(conn)) != NULL) PQclear(res);`
  unfoldable pub drain_results : ℕ → Option Conn → World → Exec World
  drain_results zero conn w = fault out_of_fuel
  drain_results (suc fuel) conn w =
      let (res, w') = get_result conn w in
      elim res [ none ↦ ok w' | some r ↦ drain_results fuel conn (clear (some r) w') ]

  -- Whether the command was sent; what comes of it is not awaited.
  unfoldable pub db_execute_async : Option Conn → List ℕ → M (Db pq) Bool
  db_execute_async conn query d = elim (drain_results (suc (pending conn d.world)) conn d.world) [
    | ok w ↦ let (sent, w') = send_query conn query w in ok (sent, record d { world = w' })
    | fault e ↦ fault e
  ]
