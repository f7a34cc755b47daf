-- ===== src/Repository/Fields.antt =====
-- Reading `result_set->records[row].fields_value[column]`.
use crinha.Prelude.{
  ℕ, Option, none, some, List, get_elem?, Exec, ok, fault, null_pointer, out_of_bounds,
}
use crinha.Prelude.Int.{ℤ, to_bits}
use crinha.Prelude.{◌^◌, ◌>>=◌}
use crinha.Clib.Decimal.{atoi, atol}
use crinha.Db.ResultSet.{DbRecord, DbResultSet}

abbrev or_out_of_bounds : {A : Type 0} → Option A → Exec A
or_out_of_bounds none = fault out_of_bounds
or_out_of_bounds (some a) = ok a

abbrev records_of : Option (List DbRecord) → Exec (List DbRecord)
records_of none = fault null_pointer
records_of (some l) = ok l

unfoldable pub field : DbResultSet → ℕ → ℕ → Exec (List ℕ)
field rs row column = do
  l ← records_of rs.records
  r ← or_out_of_bounds (get_elem? l row)
  or_out_of_bounds (get_elem? r.fields_value column)

-- `(uint32_t) atoi(…)` and `atol(…)`.
unfoldable pub field_u32 : DbResultSet → ℕ → ℕ → Exec ℕ
unfolding field atoi
field_u32 rs row column = field rs row column >>= λ s. ok (to_bits (2 ^ 31) (atoi s))

unfoldable pub field_i64 : DbResultSet → ℕ → ℕ → Exec ℤ
unfolding field atol
field_i64 rs row column = field rs row column >>= λ s. ok (atol s)
