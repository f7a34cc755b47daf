-- ===== src/Account/Extrato.antt =====
-- The statement of a client as JSON, and what is relied on of jansson's printing with JSON_COMPACT.
pub mod Printed
pub mod Answers
use crinha.Prelude.{
  ℕ, ◌≡◌, ◌⊎◌, ◌==◌, ◌&&◌, ◌||◌, ◌++◌, leb, not, Bool, true, false, Option, none, some, List, [],
  ◌∷◌, codes,
}
use crinha.Prelude.Int.{ℤ, wrap32}
use crinha.Clib.Memory.{c_str}
use crinha.Clib.Decimal.{decimal_ℤ}
use crinha.Entity.{Cliente, Transacao}
use crinha.Controller.Jansson.{Jansson, PackArg, int, string, object}

abbrev pub separated : List (List ℕ) → List ℕ
separated [] = []
separated (t ∷ []) = t
separated (t ∷ u ∷ ts) = t ++ b',' ∷ separated (u ∷ ts)

-- "key":text
abbrev pub member : List ℕ × List ℕ → List ℕ
member (key, text) = b'"' ∷ key ++ b'"' ∷ b':' ∷ text

abbrev members : List (List ℕ × List ℕ) → List (List ℕ)
members [] = []
members (m ∷ ms) = member m ∷ members ms

abbrev pub object_of : List (List ℕ × List ℕ) → List ℕ
object_of ms = b'{' ∷ separated (members ms) ++ b'}' ∷ []

abbrev pub array_text : List (List ℕ) → List ℕ
array_text ts = b'[' ∷ separated ts ++ b']' ∷ []

-- All texts, if there is none without.
abbrev pub present : List (List ℕ × Option (List ℕ)) → Option (List (List ℕ × List ℕ))
present [] = some []
present ((key, none) ∷ ms) = none
present ((key, some text) ∷ ms) = elim (present ms) [
  | none ↦ none
  | some rest ↦ some ((key, text) ∷ rest)
]

abbrev pub object_text : List (List ℕ × Option (List ℕ)) → Option (List ℕ)
object_text ms = elim (present ms) [ none ↦ none | some texts ↦ some (object_of texts) ]

abbrev pub or_null : Option (List ℕ) → List ℕ
or_null none = codes "null"
or_null (some text) = text

-- With `q` for the text of a string, which is none if the string is no UTF-8.
module _ (q : List ℕ → Option (List ℕ)) where
  unfoldable pub transacao_text : Transacao → Option (List ℕ)
  transacao_text t = object_text (
      (codes "valor", some (decimal_ℤ (wrap32 t.valor)))
      ∷ (codes "tipo", q (c_str t.tipo))
      ∷ (codes "descricao", q (c_str t.descricao))
      ∷ (codes "realizada_em", q (c_str t.realizada_em))
      ∷ [])

  -- A transaction with a string that is no UTF-8 is left out.
  unfoldable pub transacoes_texts : List Transacao → List (List ℕ)
  transacoes_texts [] = []
  transacoes_texts (t ∷ ts) = elim (transacao_text t) [
    | none ↦ transacoes_texts ts
    | some text ↦ text ∷ transacoes_texts ts
  ]

  abbrev pub saldo_data_text : Cliente → List ℕ → Option (List ℕ)
  saldo_data_text c date = object_text (
      (codes "total", some (decimal_ℤ (wrap32 c.saldo)))
      ∷ (codes "data_extrato", q date)
      ∷ (codes "limite", some (decimal_ℤ (wrap32 c.limite)))
      ∷ [])

  -- {"saldo":{"total":…,"data_extrato":…,"limite":…},"ultimas_transacoes":[…]}: of each number the low
  -- 32 bits.
  unfoldable pub extrato_text : Cliente → List ℕ → List Transacao → List ℕ
  extrato_text c date ts = object_of (
      (codes "saldo", or_null (saldo_data_text c date))
      ∷ (codes "ultimas_transacoes", array_text (transacoes_texts ts))
      ∷ [])

-- Lower-case letters and `_`.
abbrev is_plain : List ℕ → Bool
is_plain [] = true
is_plain (c ∷ cs) = ((leb b'a' c && leb c b'z') || (c == b'_')) && is_plain cs

abbrev is_same : List ℕ → List ℕ → Bool
is_same [] [] = true
is_same (a ∷ s) (b ∷ t) = (a == b) && is_same s t
is_same _ _ = false

abbrev is_new : {J : Type 0} → List ℕ → List (List ℕ × PackArg J) → Bool
is_new key [] = true
is_new key ((other, x) ∷ args) = not (is_same key other) && is_new key args

-- Different keys that need no escape.
abbrev pub are_keys : {J : Type 0} → List (List ℕ × PackArg J) → Bool
are_keys [] = true
are_keys ((key, x) ∷ args) = is_plain key && is_new key args && are_keys args

abbrev pub arg_text :
    {J : Type 0}
    → (List ℕ → Option (List ℕ))
    → (Option J → Option (List ℕ))
    → PackArg J
    → Option (List ℕ)
arg_text q dumps (int n) = some (decimal_ℤ n)
arg_text q dumps (string s) = q s
arg_text q dumps (object j) = some (or_null (dumps j))

abbrev pub arg_texts :
    {J : Type 0}
    → (List ℕ → Option (List ℕ))
    → (Option J → Option (List ℕ))
    → List (List ℕ × PackArg J)
    → List (List ℕ × Option (List ℕ))
arg_texts q dumps [] = []
arg_texts q dumps ((key, x) ∷ args) = (key, arg_text q dumps x) ∷ arg_texts q dumps args

-- NULL, or a value that can be printed by itself: an object or an array.
abbrev pub IsWritable : {J : Type 0} → (Option J → Option (List ℕ)) → PackArg J → Type 0
IsWritable dumps (int n) = Unit {0}
IsWritable dumps (string s) = Unit {0}
IsWritable dumps (object j) = (j ≡ none) ⊎ ((t : List ℕ) × (dumps j ≡ some t))

abbrev pub AreWritable :
    {J : Type 0} → (Option J → Option (List ℕ)) → List (List ℕ × PackArg J) → Type 0
AreWritable dumps [] = Unit {0}
AreWritable dumps ((key, x) ∷ args) = IsWritable dumps x × AreWritable dumps args

-- What jansson's documentation says of `json_pack`, `json_array_append_new` and `json_dumps`: members
-- and elements, which are new objects, are printed in their order; a pack is NULL if a string is no UTF-8; NULL is packed as
-- `null` by `o?`, is not appended, and is not printed. `IsArray a texts` is that `a` is an array whose
-- elements print as the texts.
pub record Writes (js : Jansson) : Type 1 where
  pub text_of_string : List ℕ → Option (List ℕ)
  pub IsArray : Option js.Json → List (List ℕ) → Type 0
  pub null : js.dumps none ≡ none
  pub value :
      (args : List (List ℕ × PackArg js.Json)) (j : js.Json)
      → js.pack args ≡ some j
      → (t : List ℕ) × (js.dumps (some j) ≡ some t)
  pub pack :
      (args : List (List ℕ × PackArg js.Json))
      → are_keys args ≡ true
      → AreWritable js.dumps args
      → js.dumps (js.pack args) ≡ object_text (arg_texts text_of_string js.dumps args)
  pub array : IsArray js.array []
  pub append :
      (a : Option js.Json) (texts : List (List ℕ)) (args : List (List ℕ × PackArg js.Json))
      (t : List ℕ)
      → IsArray a texts
      → js.dumps (js.pack args) ≡ some t
      → IsArray (js.array_append_new a (js.pack args)) (texts ++ t ∷ [])
  pub append_null :
      (a : Option js.Json) (texts : List (List ℕ))
      → IsArray a texts
      → IsArray (js.array_append_new a none) texts
  pub prints :
      (a : Option js.Json) (texts : List (List ℕ))
      → IsArray a texts
      → js.dumps a ≡ some (array_text texts)
