-- ===== src/Repository/ClienteRepository.antt =====
-- repository/cliente_repository.c and service/cliente_service.c
pub mod FindOne
use crinha.Prelude.{ℕ, ltb, if◌then◌else◌, Option, none, some, List, Exec, ok}
use crinha.Entity.{Cliente}
use crinha.Db.Libpq.{Libpq}
use crinha.Db.State.{Db, M, ◌>>=◌, ◌>>◌, pure, lift, alloc, release}
use crinha.Db.Connection.{db_get_connection}
use crinha.Db.ResultSet.{DbResultSet, db_clear_result_set}
use crinha.Db.Query.{db_query}
use crinha.Repository.Sql.{find_one_query}
use crinha.Repository.Rows.{read_cliente}

module _ (pq : Libpq) where
  -- `result_set != NULL && result_set->rows_count > 0`
  unfoldable pub first_cliente : Option DbResultSet → M (Db pq) (Option Cliente)
  first_cliente none = pure none
  first_cliente (some rs) =
      if ltb 0 rs.rows_count
      then (do alloc 1; c ← lift (read_cliente rs); pure (some c))
      else pure none

  unfoldable pub cliente_repo_find_one : ℕ → M (Db pq) (Option Cliente)
  cliente_repo_find_one id = do
    alloc 1
    conn ← db_get_connection pq
    result_set ← db_query pq conn (find_one_query id)
    release 1
    cliente ← first_cliente result_set
    db_clear_result_set pq result_set
    pure cliente

  unfoldable pub cliente_service_find_one : ℕ → M (Db pq) (Option Cliente)
  cliente_service_find_one id = cliente_repo_find_one id
