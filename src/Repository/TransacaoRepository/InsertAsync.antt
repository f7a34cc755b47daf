-- ===== src/Repository/TransacaoRepository/InsertAsync.antt =====
-- repository/transacao_repository.c: `transacao_repo_insert_async`.
use crinha.Prelude.{◌≡◌, refl, ap, ◌∙◌, ok}
use crinha.Entity.{Transacao}
use crinha.Db.Libpq.{Libpq, Drains}
use crinha.Db.State.{Db, grown, release, release-grown, grown-zero, bind_ok}
use crinha.Db.Connection.{db_get_connection}
use crinha.Db.Query.{db_execute_async}
use crinha.Db.Drain.{DrainsTo, db_execute_async_lem, drained, drained-DrainsTo}
use crinha.Repository.Sql.{insert_async_query}
use crinha.Repository.ClienteRepository.FindOne.{connected, get_connection_lem}
use crinha.Repository.TransacaoRepository.{
  transacao_repo_insert_async, transacao_service_save_async,
}

module _ (pq : Libpq) (drains : Drains pq) where
  open pq use {World, send_query}

  -- The world in which the command is sent.
  abbrev pub sent_from : Db pq → World
  sent_from d = drained pq drains d.pool (connected pq d).world

  pub save_async_lem :
      (t : Transacao) (d : Db pq)
      → transacao_service_save_async pq t d
        ≡ ok (
          (send_query d.pool (insert_async_query t) (sent_from d)).0,
          record d { world = (send_query d.pool (insert_async_query t) (sent_from d)).1 },
        )
  unfolding transacao_service_save_async transacao_repo_insert_async
  save_async_lem t d =
      let query = insert_async_query t in
      let (sent, w') = send_query d.pool query (sent_from d) in
      let after : Db pq = record d { world = w' } in
      bind_ok (db_get_connection pq) _ (grown d 1) (grown (connected pq d) 1) d.pool
        (get_connection_lem pq (grown d 1))
      ∙ bind_ok (db_execute_async pq d.pool query) _ (grown (connected pq d) 1) (grown after 1) sent
          (db_execute_async_lem pq drains d.pool query (grown (connected pq d) 1))
      ∙ bind_ok (release 1) _ (grown after 1) (grown after 0) tt (release-grown after 1 1 0 refl)
      ∙ ap (λ s. ok (sent, s)) (grown-zero after)

  -- Saving a transaction without waiting for it takes and frees the results that are pending on the
  -- connection, then sends the one command that inserts it, says whether that was sent, and keeps no
  -- block (libpq returns NULL once the pending results have been returned; a connection that is lost is
  -- reset before).
  pub save_async-ok :
      (t : Transacao) (d : Db pq)
      → (w : World) × DrainsTo pq d.pool (connected pq d).world w
        × (transacao_service_save_async pq t d
            ≡ ok (
              (send_query d.pool (insert_async_query t) w).0,
              record d { world = (send_query d.pool (insert_async_query t) w).1 },
            ))
  save_async-ok t d =
      (sent_from d, drained-DrainsTo pq drains d.pool (connected pq d).world, save_async_lem t d)
