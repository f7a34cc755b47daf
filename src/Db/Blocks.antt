-- ===== src/Db/Blocks.antt =====
-- util/db_connection.c: the copy of a result holds the strings of libpq's result; it takes a known
-- number of blocks, and freeing it gives back as many.
use crinha.Prelude.{
  ℕ, zero, suc, ◌+◌, ◌*◌, ◌≡◌, refl, ap, ◌∙◌, ◌==◌, if◌then◌else◌, Bool-cases, Option, none, some,
  List, [], ◌∷◌, ok, fault, null_pointer, arith, inl, inr, ◌≢◌, ==_iff,
}
use crinha.Clib.Memory.{c_str}
use crinha.Db.Libpq.{Libpq, pgres_tuples_ok}
use crinha.Db.State.{Db, release, grown, release-grown, grown-zero, bind_ok, go_on}
use crinha.Db.ResultSet.{
  DbRecord, DbResultSet, db_copy_fields, db_copy_rows, db_create_result_set, db_free_fields,
  db_free_rows, db_clear_result_set,
}
use crinha.Db.Query.{db_query, copy_result}

module _ (pq : Libpq) where
  open pq use {Conn, Res, World, getvalue, exec, clear, result_status, ntuples, nfields}

  -- The strings of row `i`, from column `j` on.
  abbrev pub row_values : Option Res → ℕ → ℕ → ℕ → List (List ℕ)
  row_values res i j zero = []
  row_values res i j (suc n) = c_str (getvalue res i j) ∷ row_values res i (j + 1) n

  abbrev pub all_rows : Option Res → ℕ → ℕ → ℕ → List DbRecord
  all_rows res fields i zero = []
  all_rows res fields i (suc n) =
      record { fields_value = row_values res i 0 fields } ∷ all_rows res fields (i + 1) n

  -- The result set that stands for a result.
  abbrev pub result_set_of : Option Res → ℕ → ℕ → DbResultSet
  result_set_of res zero fields = record { records = none; rows_count = 0; fields_count = fields }
  result_set_of res (suc n) fields = record {
    records = some (all_rows res fields 0 (suc n));
    rows_count = suc n;
    fields_count = fields;
  }

  -- The number of its blocks.
  abbrev pub blocks : ℕ → ℕ → ℕ
  blocks zero fields = 1
  blocks (suc n) fields = suc n * (fields + 1) + 2

  copy_fields :
      (res : Option Res) (i j n : ℕ) (d : Db pq)
      → db_copy_fields pq res i j n d ≡ ok (row_values res i j n, grown d n)
  unfolding db_copy_fields
  copy_fields res i j zero d = ground arith
  copy_fields res i j (suc n) d = ground (arith, copy_fields res i (j + 1) n (grown d 1))

  copy_rows :
      (res : Option Res) (fields i n : ℕ) (d : Db pq)
      → db_copy_rows pq res fields i n d ≡ ok (all_rows res fields i n, grown d (n * (fields + 1)))
  unfolding db_copy_rows
  copy_rows res fields i zero d = ground arith
  copy_rows res fields i (suc n) d = ground (
    arith,
    copy_fields res i 0 fields (grown d 1),
    copy_rows res fields (i + 1) n (grown (grown d 1) fields),
  )

  pub create_result_set_lem :
      (res : Option Res) (rows fields : ℕ) (d : Db pq)
      → db_create_result_set pq res rows fields d
        ≡ ok (result_set_of res rows fields, grown d (blocks rows fields))
  unfolding db_create_result_set
  create_result_set_lem res zero fields d = ground arith
  create_result_set_lem res (suc n) fields d =
      ground (arith, copy_rows res fields 0 (suc n) (grown (grown d 1) 1))

  free_fields :
      (res : Option Res) (i j n k m : ℕ) (d : Db pq)
      → m ≡ n + k
      → db_free_fields pq n (row_values res i j n) (grown d m) ≡ ok (tt, grown d k)
  unfolding db_free_fields
  free_fields res i j zero k m d e = let e' : m ≡ k = omega arith in rw e'
  free_fields res i j (suc n) k m d e =
      bind_ok (release 1) (λ _. db_free_fields pq n (row_values res i (j + 1) n)) (grown d m)
        (grown d (n + k)) tt (release-grown d m 1 (n + k) (omega arith))
      ∙ free_fields res i (j + 1) n k (n + k) d refl

  free_rows :
      (res : Option Res) (fields i n k m : ℕ) (d : Db pq)
      → m ≡ n * (fields + 1) + k
      → db_free_rows pq fields n (all_rows res fields i n) (grown d m) ≡ ok (tt, grown d k)
  unfolding db_free_rows
  free_rows res fields i zero k m d e = let e' : m ≡ k = omega arith in rw e'
  free_rows res fields i (suc n) k m d e =
      let k1 : ℕ = n * (fields + 1) + k in
      bind_ok (db_free_fields pq fields (row_values res i 0 fields)) _ (grown d m)
        (grown d (1 + k1)) tt (free_fields res i 0 fields (1 + k1) m d (omega arith))
      ∙ bind_ok (release 1) _ (grown d (1 + k1)) (grown d k1) tt
          (release-grown d (1 + k1) 1 k1 refl)
      ∙ free_rows res fields (i + 1) n k k1 d refl

  pub clear_result_set_lem :
      (res : Option Res) (rows fields k m : ℕ) (d : Db pq)
      → m ≡ blocks rows fields + k
      → db_clear_result_set pq (some (result_set_of res rows fields)) (grown d m)
        ≡ ok (tt, grown d k)
  unfolding db_clear_result_set
  clear_result_set_lem res zero fields k m d e = release-grown d m 1 k e
  clear_result_set_lem res (suc n) fields k m d e =
      ap (λ r. go_on (λ _. release 1) (go_on (λ _. release 1) r))
        (free_rows res fields 0 (suc n) (2 + k) m d (omega arith))
      ∙ ap (go_on (λ _. release 1)) (release-grown d (2 + k) 1 (1 + k) (omega arith))
      ∙ release-grown d (1 + k) 1 k refl

  pub clear_null : (s : Db pq) → db_clear_result_set pq none s ≡ fault null_pointer
  unfolding db_clear_result_set
  clear_null s = refl

  -- What `db_query` returns, and the state it leaves, by the answer of libpq.
  abbrev pub answer : Option Conn → List ℕ → Db pq → Option Res
  answer conn query d = (exec conn query d.world).0

  abbrev pub after_query : Option Conn → List ℕ → Db pq → Db pq
  after_query conn query d =
      let (res, w) = exec conn query d.world in record d { world = clear res w }

  pub db_query_rows :
      (conn : Option Conn) (query : List ℕ) (d : Db pq)
      → let res = answer conn query d in
        (result_status res ≡ pgres_tuples_ok)
        → db_query pq conn query d
          ≡ ok (
            some (result_set_of res (ntuples res) (nfields res)),
            grown (after_query conn query d) (blocks (ntuples res) (nfields res)),
          )
  unfolding db_query copy_result
  db_query_rows conn query d h =
      let (res, w) = exec conn query d.world in
      ground (arith, create_result_set_lem res (ntuples res) (nfields res) (record d { world = w }))

  pub db_query_failed :
      (conn : Option Conn) (query : List ℕ) (d : Db pq)
      → result_status (answer conn query d) ≢ pgres_tuples_ok
      → db_query pq conn query d ≡ ok (none, after_query conn query d)
  unfolding db_query copy_result
  db_query_failed conn query d h = ground arith

  -- A query and the freeing of its result set leave the count of blocks as it was, if the query
  -- succeeded with rows or none; otherwise the result set is NULL, and freeing it is a fault.
  pub query_then_clear :
      (conn : Option Conn) (query : List ℕ) (d : Db pq)
      → go_on (λ rs. db_clear_result_set pq rs) (db_query pq conn query d) ≡ (
          if result_status (answer conn query d) == pgres_tuples_ok
          then ok (tt, after_query conn query d)
          else fault null_pointer)
  query_then_clear conn query d =
      let res = answer conn query d in
      elim (Bool-cases (result_status res == pgres_tuples_ok)) [
        | inl y ↦
            ap (go_on (λ rs. db_clear_result_set pq rs))
              (db_query_rows conn query d ((==_iff _ _).0 y))
            ∙ clear_result_set_lem res (ntuples res) (nfields res) 0
                (blocks (ntuples res) (nfields res)) (after_query conn query d) (omega arith)
            ∙ rw y (ap (λ t. ok (tt, t)) (grown-zero (after_query conn query d)))
        | inr n ↦
            ap (go_on (λ rs. db_clear_result_set pq rs))
              (db_query_failed conn query d (λ e. absurd (ground (arith, n, e))))
            ∙ rw n (clear_null (after_query conn query d))
      ]
