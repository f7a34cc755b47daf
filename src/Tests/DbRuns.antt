-- ===== src/Tests/DbRuns.antt =====
-- util/db_connection.c and repository/ on a database with one answer.
use crinha.Repository.Sql.Literal.{literal, before_descricao, HasNoQuote, insert_command-literal}
use crinha.Prelude.{
  drop, length, joined, ◌↔◌, ℕ, ◌≡◌, some, List, [], ◌∷◌, ◌++◌, true, codes, ok, fault,
  null_pointer, replicate,
}
use crinha.Prelude.Int.{pos}
use crinha.Entity.{Transacao}
use crinha.Db.State.{go_on}
use crinha.Db.Drain.{DrainsTo}
use crinha.Db.Query.{db_query}
use crinha.Db.ResultSet.{db_clear_result_set}
use crinha.Db.Blocks.{query_then_clear}
use crinha.Repository.Sql.{insert_command, insert_async_query}
use crinha.Repository.ClienteRepository.{cliente_repo_find_one}
use crinha.Repository.ClienteRepository.FindOne.{find_one_failed}
use crinha.Repository.TransacaoRepository.{transacao_service_save_async}
use crinha.Repository.TransacaoRepository.InsertAsync.{save_async-ok}
use crinha.Tests.Toys.{toy_libpq, toy_libpq-Drains, toy_db, one_client, failed_query}

query_then_clear_example :
    go_on
      (λ rs. db_clear_result_set (toy_libpq one_client) rs)
      (db_query (toy_libpq one_client) (some tt) (codes "select") (toy_db one_client))
    ≡ ok (tt, toy_db one_client)
query_then_clear_example =
    query_then_clear (toy_libpq one_client) (some tt) (codes "select") (toy_db one_client)

abbrev pub debit : Transacao
debit = record {
  id = 0;
  id_cliente = 7;
  valor = pos 100;
  tipo = b'd' ∷ 0 ∷ [];
  descricao = codes "descricao" ++ replicate 12 0;
  realizada_em = replicate 41 0;
}

save_async-ok_example :
    (w : List (List ℕ)) × DrainsTo (toy_libpq one_client) (some tt) [] w
    × (transacao_service_save_async (toy_libpq one_client) debit (toy_db one_client)
        ≡ ok (true, record (toy_db one_client) { world = insert_async_query debit ∷ w }))
save_async-ok_example =
    save_async-ok (toy_libpq one_client) (toy_libpq-Drains one_client) debit (toy_db one_client)

find_one_failed_example :
    cliente_repo_find_one (toy_libpq failed_query) 7 (toy_db failed_query) ≡ fault null_pointer
find_one_failed_example = find_one_failed (toy_libpq failed_query) 7 (toy_db failed_query) (λ h. cc)

insert_command-literal_example :
    (literal (drop (length (joined (before_descricao debit))) (insert_command debit))
      ≡ (codes "descricao", codes ");"))
    ↔ HasNoQuote (codes "descricao")
insert_command-literal_example = insert_command-literal debit
