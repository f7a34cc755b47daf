-- ===== src/Tests/Writer.antt =====
-- A jansson that packs and prints, with strings of ASCII that need no escape.
use crinha.Prelude.{
  ℕ, ◌≡◌, refl, ◌++◌, ltb, ◌&&◌, if◌then◌else◌, Bool, true, Option, none, some, List, [], ◌∷◌,
  codes, ap,
}
use crinha.Controller.Jansson.{Jansson, PackArg}
use crinha.Account.Extrato.{Writes, object_text, arg_texts, array_text}
use crinha.Tests.Toys.{Toy, toy_text, toy_number, toy_body, toy_packed, toy_array, toy_jansson}

abbrev is_ascii : List ℕ → Bool
is_ascii [] = true
is_ascii (c ∷ s) = ltb c 128 && is_ascii s

abbrev pub string_text : List ℕ → Option (List ℕ)
string_text s = if is_ascii s then some (b'"' ∷ s ++ b'"' ∷ []) else none

pub dumps_writer : Option Toy → Option (List ℕ)
dumps_writer none = none
dumps_writer (some (toy_text s)) = some s
dumps_writer (some (toy_array texts)) = some (array_text texts)
dumps_writer (some _) = some (codes "0")

abbrev as_text : Option (List ℕ) → Option Toy
as_text none = none
as_text (some s) = some (toy_text s)

pub pack_writer : List (List ℕ × PackArg Toy) → Option Toy
unfolding dumps_writer
pack_writer args = as_text (object_text (arg_texts string_text dumps_writer args))

abbrev append_writer : Option Toy → Option Toy → Option Toy
append_writer (some (toy_array texts)) x = elim (dumps_writer x) [
  | none ↦ some (toy_array texts)
  | some t ↦ some (toy_array (texts ++ t ∷ []))
]
append_writer a x = a

abbrev pub writer : Jansson
writer = record toy_jansson {
  pack = pack_writer;
  array = some (toy_array []);
  array_append_new = append_writer;
  dumps = dumps_writer;
}

dumps-as_text : (t : Option (List ℕ)) → dumps_writer (as_text t) ≡ t
unfolding dumps_writer
dumps-as_text none = refl
dumps-as_text (some s) = refl

pub dumps-value : (j : Toy) → (t : List ℕ) × (dumps_writer (some j) ≡ some t)
unfolding dumps_writer
dumps-value j = elim j as (λ k. (t : List ℕ) × (dumps_writer (some k) ≡ some t)) [
  | toy_text s ↦ (s, refl)
  | toy_number n ↦ (codes "0", refl)
  | toy_body k ↦ (codes "0", refl)
  | toy_packed ↦ (codes "0", refl)
  | toy_array texts ↦ (array_text texts, refl)
]

append-text :
    (x : Option Toy) (texts : List (List ℕ)) (t : List ℕ)
    → dumps_writer x ≡ some t
    → append_writer (some (toy_array texts)) x ≡ some (toy_array (texts ++ t ∷ []))
append-text x texts t e = rw (e, append_writer) refl

abbrev IsArray : Option Toy → List (List ℕ) → Type 0
IsArray a texts = a ≡ some (toy_array texts)

pub dumps-none : dumps_writer none ≡ none
unfolding dumps_writer
dumps-none = refl

pub dumps-pack :
    (args : List (List ℕ × PackArg Toy))
    → dumps_writer (pack_writer args) ≡ object_text (arg_texts string_text dumps_writer args)
unfolding pack_writer
dumps-pack args = dumps-as_text (object_text (arg_texts string_text dumps_writer args))

pub append-IsArray :
    (a x : Option Toy) (texts : List (List ℕ)) (t : List ℕ)
    → IsArray a texts
    → dumps_writer x ≡ some t
    → IsArray (append_writer a x) (texts ++ t ∷ [])
append-IsArray a x texts t h e = rw h (append-text x texts t e)

pub append_null-IsArray :
    (a : Option Toy) (texts : List (List ℕ))
    → IsArray a texts
    → IsArray (append_writer a none) texts
unfolding dumps_writer
append_null-IsArray a texts h = rw h refl

pub dumps-IsArray :
    (a : Option Toy) (texts : List (List ℕ))
    → IsArray a texts
    → dumps_writer a ≡ some (array_text texts)
unfolding dumps_writer
dumps-IsArray a texts h = ap dumps_writer h

abbrev pub writer-Writes : Writes writer
writer-Writes = record {
  text_of_string = string_text;
  IsArray = IsArray;
  null = dumps-none;
  value = λ args j e. dumps-value j;
  pack = λ args h h'. dumps-pack args;
  array = refl;
  append = λ a texts args t h e. append-IsArray a (pack_writer args) texts t h e;
  append_null = append_null-IsArray;
  prints = dumps-IsArray;
}
