-- ===== src/Controller/Jansson.antt =====
-- The functions of jansson that the controller calls. The library is a parameter of the model. A
-- value is a pointer, which may be NULL; strings are the bytes before the NUL.
use crinha.Prelude.{ℕ, Bool, List, Option}
use crinha.Prelude.Int.{ℤ}

-- The arguments of `json_pack` behind the keys: `i`, `s` or `s?` with a string, `o?`.
pub data PackArg (J : Type 0) : Type 0 where
  int : ℤ → PackArg J
  string : List ℕ → PackArg J
  object : Option J → PackArg J

pub record Jansson : Type 1 where
  pub Json : Type 0
  pub loads : List ℕ → Option Json
  pub object_get : Option Json → List ℕ → Option Json
  pub string_value : Option Json → Option (List ℕ)
  pub is_integer : Option Json → Bool
  pub integer_value : Option Json → ℤ
  -- `{k:x, …}`; NULL if a string is no UTF-8.
  pub pack : List (List ℕ × PackArg Json) → Option Json
  pub array : Option Json
  pub array_append_new : Option Json → Option Json → Option Json
  -- With JSON_COMPACT; NULL for NULL.
  pub dumps : Option Json → Option (List ℕ)
