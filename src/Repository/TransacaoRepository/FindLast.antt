-- ===== src/Repository/TransacaoRepository/FindLast.antt =====
-- repository/transacao_repository.c: every outcome of `transacao_repo_find_last_10`.
use crinha.Prelude.{
  ℕ, suc, ◌+◌, ◌≡◌, ◌≢◌, refl, ap, ◌∙◌, Option, none, some, List, length, arith, Exec, ok,
}
use crinha.Entity.{Transacao}
use crinha.Db.Libpq.{Libpq, pgres_tuples_ok}
use crinha.Db.State.{Db, grown, release, release-grown, grown-zero, bind_ok}
use crinha.Db.Connection.{db_get_connection}
use crinha.Db.ResultSet.{DbResultSet, db_clear_result_set}
use crinha.Db.Query.{db_query}
use crinha.Db.Blocks.{
  result_set_of, blocks, answer, after_query, db_query_rows, db_query_failed, clear_result_set_lem,
}
use crinha.Repository.Sql.{find_last_10_query}
use crinha.Repository.Rows.{read_transacoes}
use crinha.Repository.ClienteRepository.FindOne.{connected, get_connection_lem}
use crinha.Repository.TransacaoRepository.{
  TransacaoList, transacoes_of, clear_if_any, transacao_repo_find_last_10,
}
use crinha.Repository.Rows.Read.{AreRows, read_AreRows}

module _ (pq : Libpq) where
  open pq use {Conn, Res, World, getvalue, result_status, ntuples, nfields}

  module _ (id : ℕ) (d : Db pq) where
    abbrev pub last_answer : Option Res
    last_answer = answer pq d.pool (find_last_10_query id) (connected pq d)

    abbrev pub after_last : Db pq
    after_last = after_query pq d.pool (find_last_10_query id) (connected pq d)

    -- If the query for the last transactions fails, the list is empty, and no block is kept.
    pub find_last-failed :
        result_status last_answer ≢ pgres_tuples_ok
        → transacao_repo_find_last_10 pq id d ≡ ok (record { size = 0; values = none }, after_last)
    unfolding transacao_repo_find_last_10 transacoes_of clear_if_any
    find_last-failed h =
        bind_ok (db_get_connection pq) _ (grown d 1) (grown (connected pq d) 1) d.pool
          (get_connection_lem pq (grown d 1))
        ∙ bind_ok (db_query pq d.pool (find_last_10_query id)) _ (grown (connected pq d) 1)
            (grown after_last 1) none
            (db_query_failed pq d.pool (find_last_10_query id) (grown (connected pq d) 1) h)
        ∙ bind_ok (release 1) _ (grown after_last 1) (grown after_last 0) tt
            (release-grown after_last 1 1 0 refl)
        ∙ ap (λ s. ok (record { size = 0; values = none }, s)) (grown-zero after_last)

    regroup : (b : ℕ) → grown (grown after_last 1) b ≡ grown after_last (1 + b)
    regroup b = ground arith

    -- The query for the last transactions, as far as its result set.
    queried :
        (m fields : ℕ)
        → result_status last_answer ≡ pgres_tuples_ok
        → ntuples last_answer ≡ m
        → nfields last_answer ≡ fields
        → db_query pq d.pool (find_last_10_query id) (grown (connected pq d) 1)
          ≡ ok (
            some (result_set_of pq last_answer m fields),
            grown after_last (1 + blocks pq m fields),
          )
    queried m fields h z f =
        let answered : ℕ → ℕ → Exec (Option DbResultSet × Db pq) = λ k l.
          ok
            (some (result_set_of pq last_answer k l), grown (grown after_last 1) (blocks pq k l)) in
        db_query_rows pq d.pool (find_last_10_query id) (grown (connected pq d) 1) h
        ∙ ap (λ k. answered k (nfields last_answer)) z
        ∙ ap (answered m) f
        ∙ ap (λ t. ok (some (result_set_of pq last_answer m fields), t))
            (regroup (blocks pq m fields))

    -- If the query for the last transactions returns no row, the list is empty, and no block is kept.
    pub find_last-empty :
        result_status last_answer ≡ pgres_tuples_ok
        → ntuples last_answer ≡ 0
        → transacao_repo_find_last_10 pq id d ≡ ok (record { size = 0; values = none }, after_last)
    unfolding transacao_repo_find_last_10 transacoes_of clear_if_any
    find_last-empty h z =
        let rs = result_set_of pq last_answer 0 (nfields last_answer) in
        bind_ok (db_get_connection pq) _ (grown d 1) (grown (connected pq d) 1) d.pool
          (get_connection_lem pq (grown d 1))
        ∙ bind_ok (db_query pq d.pool (find_last_10_query id)) _ (grown (connected pq d) 1)
            (grown after_last 2) (some rs) (queried 0 (nfields last_answer) h z refl)
        ∙ bind_ok (release 1) _ (grown after_last 2) (grown after_last 1) tt
            (release-grown after_last 2 1 1 refl)
        ∙ bind_ok (db_clear_result_set pq (some rs)) _ (grown after_last 1) (grown after_last 0) tt
            (clear_result_set_lem pq last_answer 0 (nfields last_answer) 0 1 after_last refl)
        ∙ ap (λ s. ok (record { size = 0; values = none }, s)) (grown-zero after_last)

    list_lem :
        (m b : ℕ) (ts : List Transacao) (s : Db pq)
        → read_transacoes (result_set_of pq last_answer (suc m) 6) 0 (suc m) ≡ ok ts
        → transacoes_of pq (some (result_set_of pq last_answer (suc m) 6)) (grown s b)
          ≡ ok (record { size = suc m; values = some ts }, grown s (b + 1))
    unfolding transacoes_of
    list_lem m b ts s e = ground (arith, e)

    -- If the query for the last transactions returns rows of six fields, they are read in order, the
    -- strings cut to their arrays, and one block is kept for them; the others are freed.
    pub find_last-rows :
        (m : ℕ)
        → result_status last_answer ≡ pgres_tuples_ok
        → ntuples last_answer ≡ suc m
        → nfields last_answer ≡ 6
        → (ts : List Transacao) × (transacao_repo_find_last_10 pq id d
            ≡ ok (record { size = suc m; values = some ts }, grown after_last 1))
          × (length ts ≡ suc m)
          × AreRows pq last_answer 0 ts
    unfolding transacao_repo_find_last_10 clear_if_any
    find_last-rows m h z f =
        let (ts, e, l, r) = read_AreRows pq last_answer m (suc m) 0 (omega arith) in
        let b : ℕ = blocks pq (suc m) 6 in
        let rs = result_set_of pq last_answer (suc m) 6 in
        let list : TransacaoList = record { size = suc m; values = some ts } in
        (
          ts,
          bind_ok (db_get_connection pq) _ (grown d 1) (grown (connected pq d) 1) d.pool
                (get_connection_lem pq (grown d 1))
              ∙ bind_ok (db_query pq d.pool (find_last_10_query id)) _ (grown (connected pq d) 1)
                  (grown after_last (1 + b)) (some rs) (queried (suc m) 6 h z f)
              ∙ bind_ok (release 1) _ (grown after_last (1 + b)) (grown after_last b) tt
                  (release-grown after_last (1 + b) 1 b refl)
              ∙ bind_ok (transacoes_of pq (some rs)) _ (grown after_last b)
                  (grown after_last (b + 1)) list (list_lem m b ts after_last e)
              ∙ bind_ok (clear_if_any pq (some rs)) _ (grown after_last (b + 1))
                  (grown after_last 1) tt
                  (clear_result_set_lem pq last_answer (suc m) 6 1 (b + 1) after_last refl),
          l,
          r,
        )
