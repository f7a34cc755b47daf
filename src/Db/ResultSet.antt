-- ===== src/Db/ResultSet.antt =====
-- util/db_connection.c: copying a result of libpq, and freeing the copy. `records` holds the rows'
-- fields as strings; the blocks that hold them are counted.
use crinha.Prelude.{
  ℕ, zero, suc, ◌+◌, Option, none, some, List, [], ◌∷◌, null_pointer, out_of_bounds,
}
use crinha.Clib.Memory.{c_str}
use crinha.Db.Libpq.{Libpq}
use crinha.Db.State.{Db, M, ◌>>=◌, ◌>>◌, pure, raise, alloc, release}

pub record DbRecord : Type 0 where
  pub fields_value : List (List ℕ)

pub record DbResultSet : Type 0 where
  pub records : Option (List DbRecord)
  pub rows_count : ℕ
  pub fields_count : ℕ

module _ (pq : Libpq) where
  open pq use {Res, getvalue}

  -- `malloc(strlen(value) + 1)` and `strcpy`.
  unfoldable pub db_copy_field : List ℕ → M (Db pq) (List ℕ)
  db_copy_field value = do alloc 1; pure (c_str value)

  -- `for (int j = …; j < fields; j++)`, with `n` rounds left.
  unfoldable pub db_copy_fields : Option Res → ℕ → ℕ → ℕ → M (Db pq) (List (List ℕ))
  unfolding db_copy_field
  db_copy_fields res i j zero = pure []
  db_copy_fields res i j (suc n) = do
    value ← db_copy_field (getvalue res i j)
    rest ← db_copy_fields res i (j + 1) n
    pure (value ∷ rest)

  -- `for (int i = …; i < rows; i++)`; each row has a block for its array of strings.
  unfoldable pub db_copy_rows : Option Res → ℕ → ℕ → ℕ → M (Db pq) (List DbRecord)
  unfolding db_copy_fields
  db_copy_rows res fields i zero = pure []
  db_copy_rows res fields i (suc n) = do
    alloc 1
    values ← db_copy_fields res i 0 fields
    rest ← db_copy_rows res fields (i + 1) n
    pure (record { fields_value = values } ∷ rest)

  -- Without rows `records` is NULL.
  abbrev copy_records : Option Res → ℕ → ℕ → M (Db pq) (Option (List DbRecord))
  copy_records res zero fields = pure none
  copy_records res (suc n) fields = do
    alloc 1
    rs ← db_copy_rows res fields 0 (suc n)
    pure (some rs)

  unfoldable pub db_create_result_set : Option Res → ℕ → ℕ → M (Db pq) DbResultSet
  unfolding db_copy_rows
  db_create_result_set res rows fields = do
    alloc 1
    rs ← copy_records res rows fields
    pure (record { records = rs; rows_count = rows; fields_count = fields })

  -- `for (int j = …; j < fields_count; j++)`: an access past the array is a fault.
  unfoldable pub db_free_fields : ℕ → List (List ℕ) → M (Db pq) (Unit {0})
  db_free_fields zero vs = pure tt
  db_free_fields (suc n) [] = raise out_of_bounds
  db_free_fields (suc n) (v ∷ vs) = do release 1; db_free_fields n vs

  unfoldable pub db_free_rows : ℕ → ℕ → List DbRecord → M (Db pq) (Unit {0})
  unfolding db_free_fields
  db_free_rows fields zero rs = pure tt
  db_free_rows fields (suc n) [] = raise out_of_bounds
  db_free_rows fields (suc n) (r ∷ rs) = do
    db_free_fields fields r.fields_value
    release 1
    db_free_rows fields n rs

  abbrev free_records : ℕ → ℕ → Option (List DbRecord) → M (Db pq) (Unit {0})
  free_records fields zero none = pure tt
  free_records fields (suc n) none = raise null_pointer
  free_records fields n (some rs) = do db_free_rows fields n rs; release 1

  -- `result_set->rows_count` is read first, so NULL is a fault.
  unfoldable pub db_clear_result_set : Option DbResultSet → M (Db pq) (Unit {0})
  unfolding db_free_rows
  db_clear_result_set none = raise null_pointer
  db_clear_result_set (some rs) = do
    free_records rs.fields_count rs.rows_count rs.records
    release 1
