-- ===== src/Library/Jansson/Value.antt =====
-- include/jansson.h: `json_t`, its type and the tests of it. A value is a pointer into a heap, which
-- may be NULL.
use crinha.Prelude.{ℕ, ◌==◌, ◌||◌, Bool, false, Option, none, some, List, get_elem?}

pub data JsonType : Type 0 where
  json_object json_array json_string json_integer json_real json_true json_false : JsonType
  json_null : JsonType

abbrev pub type_value : JsonType → ℕ
type_value json_object = 0
type_value json_array = 1
type_value json_string = 2
type_value json_integer = 3
type_value json_real = 4
type_value json_true = 5
type_value json_false = 6
type_value json_null = 7

-- The two fields that every value begins with.
pub record JsonT : Type 0 where
  pub type : JsonType
  pub refcount : ℕ

abbrev pub Heap : Type 0
Heap = List JsonT

-- `(json) && json_typeof(json) == t`
abbrev pub has_type : JsonType → Option ℕ → Heap → Bool
has_type t none h = false
has_type t (some p) h = elim (get_elem? h p) [
  | none ↦ false
  | some v ↦ type_value v.type == type_value t
]

abbrev pub json_is_object : Option ℕ → Heap → Bool
json_is_object json h = has_type JsonType.json_object json h

abbrev pub json_is_array : Option ℕ → Heap → Bool
json_is_array json h = has_type JsonType.json_array json h

abbrev pub json_is_string : Option ℕ → Heap → Bool
json_is_string json h = has_type JsonType.json_string json h

abbrev pub json_is_integer : Option ℕ → Heap → Bool
json_is_integer json h = has_type JsonType.json_integer json h

abbrev pub json_is_real : Option ℕ → Heap → Bool
json_is_real json h = has_type JsonType.json_real json h

abbrev pub json_is_number : Option ℕ → Heap → Bool
json_is_number json h = json_is_integer json h || json_is_real json h

abbrev pub json_is_true : Option ℕ → Heap → Bool
json_is_true json h = has_type JsonType.json_true json h

abbrev pub json_is_false : Option ℕ → Heap → Bool
json_is_false json h = has_type JsonType.json_false json h

abbrev pub json_is_boolean : Option ℕ → Heap → Bool
json_is_boolean json h = json_is_true json h || json_is_false json h

abbrev pub json_is_null : Option ℕ → Heap → Bool
json_is_null json h = has_type JsonType.json_null json h
