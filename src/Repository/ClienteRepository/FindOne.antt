-- ===== src/Repository/ClienteRepository/FindOne.antt =====
-- repository/cliente_repository.c: every outcome of `cliente_repo_find_one`.
use crinha.Prelude.{
  ℕ, suc, ◌+◌, ◌^◌, ◌≡◌, ◌≢◌, refl, ap, ◌∙◌, Option, none, some, arith, if◌then◌else◌, ◌==◌, Exec,
  ok, fault, null_pointer,
}
use crinha.Prelude.Int.{to_bits}
use crinha.Clib.Memory.{c_str}
use crinha.Clib.Decimal.{atoi, atol}
use crinha.Entity.{Cliente}
use crinha.Db.Libpq.{Libpq, pgres_tuples_ok, connection_ok}
use crinha.Db.State.{Db, grown, release, release-grown, grown-zero, bind_ok, go_on}
use crinha.Db.Connection.{db_get_connection}
use crinha.Db.ResultSet.{DbResultSet, db_clear_result_set}
use crinha.Db.Query.{db_query}
use crinha.Db.Blocks.{
  result_set_of, blocks, answer, after_query, db_query_rows, db_query_failed, clear_result_set_lem,
  clear_null,
}
use crinha.Repository.Sql.{find_one_query}
use crinha.Repository.Rows.{read_cliente}
use crinha.Repository.Fields.{field_u32, field_i64, field}
use crinha.Repository.ClienteRepository.{first_cliente, cliente_repo_find_one}

module _ (pq : Libpq) where
  open pq use {Conn, Res, getvalue, result_status, ntuples, nfields, status, reset}

  -- The state in which the connection has been checked.
  abbrev pub connected : Db pq → Db pq
  connected d = record d {
    world = if status d.pool d.world == connection_ok then d.world else reset d.pool d.world;
  }

  pub get_connection_lem : (d : Db pq) → db_get_connection pq d ≡ ok (d.pool, connected d)
  unfolding db_get_connection
  get_connection_lem d = ground arith

  -- The client in the first row of an answer.
  abbrev pub cliente_of : Option Res → Cliente
  cliente_of res = record {
    id = to_bits (2 ^ 31) (atoi (c_str (getvalue res 0 0)));
    limite = atol (c_str (getvalue res 0 1));
    saldo = atol (c_str (getvalue res 0 2));
  }

  -- The answer to the query, and the state once it has been freed.
  abbrev pub find_answer : ℕ → Db pq → Option Res
  find_answer id d = answer pq d.pool (find_one_query id) (connected d)

  abbrev pub after_find : ℕ → Db pq → Db pq
  after_find id d = after_query pq d.pool (find_one_query id) (connected d)

  read_first :
      (res : Option Res) (n : ℕ)
      → read_cliente (result_set_of pq res (suc n) 3) ≡ ok (cliente_of res)
  unfolding read_cliente field_u32 field_i64 field
  read_first res n = refl

  module _ (id : ℕ) (d : Db pq) where
    regroup : (b : ℕ) → grown (grown (after_find id d) 1) b ≡ grown (after_find id d) (1 + b)
    regroup b = ground arith

    -- If the query for a client fails, the result set is NULL, and freeing it stops the server.
    pub find_one_failed :
        result_status (find_answer id d) ≢ pgres_tuples_ok
        → cliente_repo_find_one pq id d ≡ fault null_pointer
    unfolding cliente_repo_find_one first_cliente
    find_one_failed h =
        bind_ok (db_get_connection pq) _ (grown d 1) (grown (connected d) 1) d.pool
          (get_connection_lem (grown d 1))
        ∙ bind_ok (db_query pq d.pool (find_one_query id)) _ (grown (connected d) 1)
            (grown (after_find id d) 1) none
            (db_query_failed pq d.pool (find_one_query id) (grown (connected d) 1) h)
        ∙ bind_ok (release 1) _ (grown (after_find id d) 1) (grown (after_find id d) 0) tt
            (release-grown (after_find id d) 1 1 0 refl)
        ∙ ap (go_on _) (clear_null pq (grown (after_find id d) 0))

    first_lem :
        (n : ℕ) (m : ℕ) (s : Db pq)
        → first_cliente pq (some (result_set_of pq (find_answer id d) (suc n) 3)) (grown s m)
          ≡ ok (some (cliente_of (find_answer id d)), grown s (m + 1))
    unfolding first_cliente
    first_lem n m s = ground (arith, read_first (find_answer id d) n)

    -- If the query for a client returns no row, there is no client, and no block is kept.
    pub find_one_missing :
        result_status (find_answer id d) ≡ pgres_tuples_ok
        → ntuples (find_answer id d) ≡ 0
        → cliente_repo_find_one pq id d ≡ ok (none, after_find id d)
    unfolding cliente_repo_find_one first_cliente
    find_one_missing h z =
        let res = find_answer id d in
        bind_ok (db_get_connection pq) _ (grown d 1) (grown (connected d) 1) d.pool
          (get_connection_lem (grown d 1))
        ∙ bind_ok (db_query pq d.pool (find_one_query id)) _ (grown (connected d) 1)
            (grown (after_find id d) 2) (some (result_set_of pq res 0 (nfields res)))
            (db_query_rows pq d.pool (find_one_query id) (grown (connected d) 1) h
              ∙ rw z (ap (λ t. ok (some (result_set_of pq res 0 (nfields res)), t)) (regroup 1)))
        ∙ bind_ok (release 1) _ (grown (after_find id d) 2) (grown (after_find id d) 1) tt
            (release-grown (after_find id d) 2 1 1 refl)
        ∙ bind_ok (db_clear_result_set pq (some (result_set_of pq res 0 (nfields res)))) _
            (grown (after_find id d) 1) (grown (after_find id d) 0) tt
            (clear_result_set_lem pq res 0 (nfields res) 0 1 (after_find id d) refl)
        ∙ ap (λ t. ok (none, t)) (grown-zero (after_find id d))

    -- If the query for a client returns rows of three fields, the client is read from the first row, and
    -- one block is kept for it; the others are freed.
    pub find_one_found :
        (n : ℕ)
        → result_status (find_answer id d) ≡ pgres_tuples_ok
        → ntuples (find_answer id d) ≡ suc n
        → nfields (find_answer id d) ≡ 3
        → cliente_repo_find_one pq id d
          ≡ ok (some (cliente_of (find_answer id d)), grown (after_find id d) 1)
    unfolding cliente_repo_find_one
    find_one_found n h z f =
        let res = find_answer id d in
        let rs = result_set_of pq res (suc n) 3 in
        let b : ℕ = blocks pq (suc n) 3 in
        let answered : ℕ → ℕ → Exec (Option DbResultSet × Db pq) = λ k l.
          ok (some (result_set_of pq res k l), grown (grown (after_find id d) 1) (blocks pq k l)) in
        bind_ok (db_get_connection pq) _ (grown d 1) (grown (connected d) 1) d.pool
          (get_connection_lem (grown d 1))
        ∙ bind_ok (db_query pq d.pool (find_one_query id)) _ (grown (connected d) 1)
            (grown (after_find id d) (1 + b)) (some rs)
            (db_query_rows pq d.pool (find_one_query id) (grown (connected d) 1) h
              ∙ ap (λ k. answered k (nfields res)) z
              ∙ ap (answered (suc n)) f
              ∙ ap (λ t. ok (some rs, t)) (regroup b))
        ∙ bind_ok (release 1) _ (grown (after_find id d) (1 + b)) (grown (after_find id d) b) tt
            (release-grown (after_find id d) (1 + b) 1 b refl)
        ∙ bind_ok (first_cliente pq (some rs)) _ (grown (after_find id d) b)
            (grown (after_find id d) (b + 1)) (some (cliente_of res))
            (first_lem n b (after_find id d))
        ∙ bind_ok (db_clear_result_set pq (some rs)) _ (grown (after_find id d) (b + 1))
            (grown (after_find id d) 1) tt
            (clear_result_set_lem pq res (suc n) 3 1 (b + 1) (after_find id d) refl)
