-- ===== src/Util/ArrayList.antt =====
-- util/array_list.c: a list of numbers in an array, that is emptied from its front.
pub mod Fifo
use crinha.Prelude.{
  ℕ, zero, suc, ◌+◌, ◌-◌, ◌*◌, leb, ltb, if◌then◌else◌, Bool, none, some, List, [], ◌∷◌, ◌++◌,
  length, take, drop, replicate, set, get_elem?, Exec, ok, fault, exit_failure, out_of_bounds,
}
use crinha.Prelude.Int.{ℤ, pos}

-- The functions that the struct points to are those of this file. An int takes 4 bytes, the struct 48.
pub record IntArrayList : Type 0 where
  pub max_size : ℕ
  pub size : ℕ
  pub values : List ℤ

abbrev pub ints_per_struct : ℕ
ints_per_struct = 12

-- `max_size` is not set: it is whatever the block holds.
unfoldable pub int_array_list_new : ℕ → ℕ → IntArrayList
int_array_list_new unset size = record {
  max_size = unset;
  size = 0;
  values = replicate size (pos 0);
}

unfoldable pub push : IntArrayList → ℤ → Exec IntArrayList
push self value =
    if leb self.max_size self.size
    then fault exit_failure
    else if leb (length self.values) self.size
    then fault out_of_bounds
    else ok (record self { size = self.size + 1; values = set self.values self.size value })

-- `memcpy` of `n` ints from the second place to the first.
unfoldable pub shift : ℕ → List ℤ → Exec (List ℤ)
shift n vs =
    if ltb (length vs) (n + 1) then fault out_of_bounds else ok (take n (drop 1 vs) ++ drop n vs)

-- The bytes copied are those of `size` structs. With an empty list the size falls to -1, whose
-- number of bytes no array has.
unfoldable pub pop : IntArrayList → Exec (IntArrayList × ℤ)
pop self = elim self.values [
  | [] ↦ fault out_of_bounds
  | val ∷ rest ↦ elim self.size [
    | zero ↦ fault out_of_bounds
    | suc size ↦ elim (shift (ints_per_struct * size) (val ∷ rest)) [
      | fault e ↦ fault e
      | ok values ↦ ok (record self { size = size; values = values }, val)
    ]
  ]
]

-- The array and the struct are freed; `live` blocks are handed out.
unfoldable pub destroy : IntArrayList → ℕ → Exec ℕ
destroy self live = if ltb live 2 then fault out_of_bounds else ok (live - 2)

unfoldable pub is_full : IntArrayList → Bool
is_full self = leb self.max_size self.size
