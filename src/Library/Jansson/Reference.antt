-- ===== src/Library/Jansson/Reference.antt =====
-- include/jansson.h: counting references. What the library itself does is a parameter.
use crinha.Prelude.{
  ℕ, zero, suc, ◌+◌, ◌-◌, ◌^◌, ◌==◌, if◌then◌else◌, Option, none, some, List, get_elem?, set, Exec,
  ok, fault, out_of_bounds,
}
use crinha.Prelude.Int.{ℤ}
use crinha.Library.Jansson.Value.{JsonT, Heap}

-- The calls of the library, on the heap: `none` is NULL.
pub record Calls : Type 1 where
  pub Iter : Type 0
  pub delete : ℕ → Heap → Exec Heap
  pub object_set_new : Option ℕ → List ℕ → Option ℕ → Heap → Exec (ℤ × Heap)
  pub object_setn_new : Option ℕ → List ℕ → ℕ → Option ℕ → Heap → Exec (ℤ × Heap)
  pub object_set_new_nocheck : Option ℕ → List ℕ → Option ℕ → Heap → Exec (ℤ × Heap)
  pub object_setn_new_nocheck : Option ℕ → List ℕ → ℕ → Option ℕ → Heap → Exec (ℤ × Heap)
  pub object_iter_set_new : Option ℕ → Iter → Option ℕ → Heap → Exec (ℤ × Heap)
  pub object_update : Option ℕ → Option ℕ → Heap → Exec (ℤ × Heap)
  pub object_update_existing : Option ℕ → Option ℕ → Heap → Exec (ℤ × Heap)
  pub object_update_missing : Option ℕ → Option ℕ → Heap → Exec (ℤ × Heap)
  pub array_set_new : Option ℕ → ℕ → Option ℕ → Heap → Exec (ℤ × Heap)
  pub array_append_new : Option ℕ → Option ℕ → Heap → Exec (ℤ × Heap)
  pub array_insert_new : Option ℕ → ℕ → Option ℕ → Heap → Exec (ℤ × Heap)

-- `(size_t) -1`, the count of values that are never freed.
abbrev pub forever : ℕ
forever = 2 ^ 64 - 1

abbrev pub with_count : JsonT → ℕ → JsonT
with_count v n = record v { refcount = n }

unfoldable pub json_incref : Option ℕ → Heap → Exec Heap
json_incref none h = ok h
json_incref (some p) h = elim (get_elem? h p) [
  | none ↦ fault out_of_bounds
  | some v ↦ if v.refcount == forever then ok h else ok (set h p (with_count v (v.refcount + 1)))
]

module _ (calls : Calls) where
  -- A count of 0, which no reference should see, would wrap to `forever`.
  unfoldable pub json_decref : Option ℕ → Heap → Exec Heap
  json_decref none h = ok h
  json_decref (some p) h = elim (get_elem? h p) [
    | none ↦ fault out_of_bounds
    | some v ↦ if v.refcount == forever then ok h else elim v.refcount [
      | zero ↦ ok (set h p (with_count v forever))
      | suc n ↦
          if n == 0
          then calls.delete p (set h p (with_count v n))
          else ok (set h p (with_count v n))
    ]
  ]

  -- The pointer that is left at the place, if there is a place.
  unfoldable pub json_decrefp : Option (Option ℕ) → Heap → Exec (Option (Option ℕ) × Heap)
  json_decrefp none h = ok (none, h)
  json_decrefp (some json) h = elim (json_decref json h) [
    | fault e ↦ fault e
    | ok h' ↦ ok (some none, h')
  ]

  -- A call that takes a reference over, with one more reference to give.
  abbrev pub keeping : (Option ℕ → Heap → Exec (ℤ × Heap)) → Option ℕ → Heap → Exec (ℤ × Heap)
  keeping call value h = elim (json_incref value h) [ fault e ↦ fault e | ok h' ↦ call value h' ]

  unfoldable pub json_object_set : Option ℕ → List ℕ → Option ℕ → Heap → Exec (ℤ × Heap)
  json_object_set object key = keeping (calls.object_set_new object key)

  unfoldable pub json_object_setn : Option ℕ → List ℕ → ℕ → Option ℕ → Heap → Exec (ℤ × Heap)
  json_object_setn object key key_len = keeping (calls.object_setn_new object key key_len)

  unfoldable pub json_object_set_nocheck : Option ℕ → List ℕ → Option ℕ → Heap → Exec (ℤ × Heap)
  json_object_set_nocheck object key = keeping (calls.object_set_new_nocheck object key)

  unfoldable pub json_object_setn_nocheck :
      Option ℕ → List ℕ → ℕ → Option ℕ → Heap → Exec (ℤ × Heap)
  json_object_setn_nocheck object key key_len =
      keeping (calls.object_setn_new_nocheck object key key_len)

  unfoldable pub json_object_iter_set : Option ℕ → calls.Iter → Option ℕ → Heap → Exec (ℤ × Heap)
  json_object_iter_set object iter = keeping (calls.object_iter_set_new object iter)

  -- A call, and the end of the reference to its last argument.
  abbrev pub giving : (Option ℕ → Heap → Exec (ℤ × Heap)) → Option ℕ → Heap → Exec (ℤ × Heap)
  giving call other h = elim (call other h) [
    | fault e ↦ fault e
    | ok (ret, h') ↦ elim (json_decref other h') [ fault e ↦ fault e | ok h'' ↦ ok (ret, h'') ]
  ]

  unfoldable pub json_object_update_new : Option ℕ → Option ℕ → Heap → Exec (ℤ × Heap)
  json_object_update_new object = giving (calls.object_update object)

  unfoldable pub json_object_update_existing_new : Option ℕ → Option ℕ → Heap → Exec (ℤ × Heap)
  json_object_update_existing_new object = giving (calls.object_update_existing object)

  unfoldable pub json_object_update_missing_new : Option ℕ → Option ℕ → Heap → Exec (ℤ × Heap)
  json_object_update_missing_new object = giving (calls.object_update_missing object)

  unfoldable pub json_array_set : Option ℕ → ℕ → Option ℕ → Heap → Exec (ℤ × Heap)
  json_array_set array ind = keeping (calls.array_set_new array ind)

  unfoldable pub json_array_append : Option ℕ → Option ℕ → Heap → Exec (ℤ × Heap)
  json_array_append array = keeping (calls.array_append_new array)

  unfoldable pub json_array_insert : Option ℕ → ℕ → Option ℕ → Heap → Exec (ℤ × Heap)
  json_array_insert array ind = keeping (calls.array_insert_new array ind)
