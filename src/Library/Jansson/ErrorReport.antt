-- ===== src/Library/Jansson/ErrorReport.antt =====
-- include/jansson.h: `json_error_t`, what is said of a text that cannot be read, and its code.
use crinha.Prelude.{
  ℕ, ◌+◌, ◌-◌, ◌^◌, ◌<◌, ◌≡◌, arith, ltb, if◌then◌else◌, none, some, List, get_elem?, Exec, ok,
  fault, out_of_bounds,
}
use crinha.Prelude.Int.{ℤ}

abbrev pub json_error_text_length : ℕ
json_error_text_length = 160

abbrev pub json_error_source_length : ℕ
json_error_source_length = 80

-- The two arrays hold all their bytes.
pub record JsonErrorT : Type 0 where
  pub line : ℤ
  pub column : ℤ
  pub position : ℤ
  pub source : List ℕ
  pub text : List ℕ

pub data JsonErrorCode : Type 0 where
  json_error_unknown json_error_out_of_memory json_error_stack_overflow : JsonErrorCode
  json_error_cannot_open_file json_error_invalid_argument json_error_invalid_utf8 : JsonErrorCode
  json_error_premature_end_of_input json_error_end_of_input_expected : JsonErrorCode
  json_error_invalid_syntax json_error_invalid_format json_error_wrong_type : JsonErrorCode
  json_error_null_character json_error_null_value json_error_null_byte_in_key : JsonErrorCode
  json_error_duplicate_key json_error_numeric_overflow json_error_item_not_found : JsonErrorCode
  json_error_index_out_of_range : JsonErrorCode

abbrev pub error_value : JsonErrorCode → ℕ
error_value json_error_unknown = 0
error_value json_error_out_of_memory = 1
error_value json_error_stack_overflow = 2
error_value json_error_cannot_open_file = 3
error_value json_error_invalid_argument = 4
error_value json_error_invalid_utf8 = 5
error_value json_error_premature_end_of_input = 6
error_value json_error_end_of_input_expected = 7
error_value json_error_invalid_syntax = 8
error_value json_error_invalid_format = 9
error_value json_error_wrong_type = 10
error_value json_error_null_character = 11
error_value json_error_null_value = 12
error_value json_error_null_byte_in_key = 13
error_value json_error_duplicate_key = 14
error_value json_error_numeric_overflow = 15
error_value json_error_item_not_found = 16
error_value json_error_index_out_of_range = 17

-- The last byte of the text, as a number of the enumeration, which is an unsigned one of 32 bits: a
-- `char` is signed.
unfoldable pub json_error_code : JsonErrorT → Exec ℕ
json_error_code e = elim (get_elem? e.text (json_error_text_length - 1)) [
  | none ↦ fault out_of_bounds
  | some c ↦ ok (if ltb c 128 then c else 2 ^ 32 - 256 + c)
]

error_value-lt : (c : JsonErrorCode) → error_value c < 128
error_value-lt c = grind arith

-- Every code survives in the last byte of the text, though that is signed.
json_error_code-error_value :
    (e : JsonErrorT) (c : JsonErrorCode)
    → get_elem? e.text (json_error_text_length - 1) ≡ some (error_value c)
    → json_error_code e ≡ ok (error_value c)
unfolding json_error_code
json_error_code-error_value e c at =
    let low = error_value-lt c in rw (at, json_error_code) (ground (arith, low))
