-- ===== src/Repository/TransacaoRepository.antt =====
-- repository/transacao_repository.c and service/transacao_service.c
pub mod InsertAsync
pub mod FindLast
use crinha.Prelude.{
  ℕ, zero, suc, ◌+◌, ltb, if◌then◌else◌, Bool, Option, none, some, List, [], ◌∷◌, Exec, ok,
}
use crinha.Entity.{
  Cliente, Transacao, fresh_transacao, transacao_tipo_len, utf8_transacao_descricao_len,
  transacao_realizada_em_len,
}
use crinha.Util.StringUtil.{strzcpy}
use crinha.Db.Libpq.{Libpq}
use crinha.Db.State.{Db, M, ◌>>=◌, ◌>>◌, pure, lift, alloc, release}
use crinha.Db.Connection.{db_get_connection}
use crinha.Db.ResultSet.{DbResultSet, db_clear_result_set}
use crinha.Db.Query.{db_query, db_execute_async}
use crinha.Repository.Sql.{find_last_10_query, insert_query, insert_async_query}
use crinha.Repository.Rows.{read_transacoes}
use crinha.Repository.ClienteRepository.{first_cliente}

pub record TransacaoList : Type 0 where
  pub size : ℕ
  pub values : Option (List Transacao)

module _ (pq : Libpq) where
  unfoldable pub transacoes_of : Option DbResultSet → M (Db pq) TransacaoList
  transacoes_of none = pure (record { size = 0; values = none })
  transacoes_of (some rs) =
      if ltb 0 rs.rows_count
      then (do
        alloc 1
        ts ← lift (read_transacoes rs 0 rs.rows_count)
        pure (record { size = rs.rows_count; values = some ts }))
      else pure (record { size = 0; values = none })

  -- `if (result_set != NULL) db_clear_result_set(result_set);`
  unfoldable pub clear_if_any : Option DbResultSet → M (Db pq) (Unit {0})
  clear_if_any none = pure tt
  clear_if_any (some rs) = db_clear_result_set pq (some rs)

  unfoldable pub transacao_repo_find_last_10 : ℕ → M (Db pq) TransacaoList
  transacao_repo_find_last_10 id_cliente = do
    alloc 1
    conn ← db_get_connection pq
    result_set ← db_query pq conn (find_last_10_query id_cliente)
    release 1
    transacoes ← transacoes_of result_set
    clear_if_any result_set
    pure transacoes

  unfoldable pub transacao_repo_insert : Transacao → M (Db pq) (Option Cliente)
  transacao_repo_insert t = do
    alloc 1
    conn ← db_get_connection pq
    result_set ← db_query pq conn (insert_query t)
    release 1
    cliente ← first_cliente pq result_set
    clear_if_any result_set
    pure cliente

  unfoldable pub transacao_repo_insert_async : Transacao → M (Db pq) Bool
  transacao_repo_insert_async t = do
    alloc 1
    conn ← db_get_connection pq
    res ← db_execute_async pq conn (insert_async_query t)
    release 1
    pure res

  unfoldable pub transacao_repo_free_list : TransacaoList → M (Db pq) (Unit {0})
  transacao_repo_free_list l = elim l.values [ none ↦ pure tt | some _ ↦ release 1 ]

  unfoldable pub transacao_service_find_last_10 : ℕ → M (Db pq) TransacaoList
  transacao_service_find_last_10 cliente_id = transacao_repo_find_last_10 cliente_id

  unfoldable pub transacao_service_save : Transacao → M (Db pq) (Option Cliente)
  transacao_service_save t = transacao_repo_insert t

  unfoldable pub transacao_service_save_async : Transacao → M (Db pq) Bool
  transacao_service_save_async t = transacao_repo_insert_async t

  unfoldable pub transacao_service_free_list : TransacaoList → M (Db pq) (Unit {0})
  transacao_service_free_list l = transacao_repo_free_list l
