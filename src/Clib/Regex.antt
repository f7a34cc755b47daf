-- ===== src/Clib/Regex.antt =====
-- <regex.h> with REG_EXTENDED, for the patterns that the server compiles: literal characters,
-- escapes, bracket lists, `*` behind one of these, a group with nothing behind it, and the anchors
-- at the ends. What has none of these shapes is refused, as `regcomp` refuses a malformed pattern. A
-- bracket is read character by character: `[^…]` and `[]…]`, which no pattern of the program has, are not
-- read as `regcomp` reads them.
pub mod Matching
pub mod Framed
use mathlib.Core.List.{reverse}
use crinha.Prelude.{
  ℕ, zero, suc, ◌+◌, Bool, true, false, ◌&&◌, ◌||◌, Option, none, some, List, [], ◌∷◌, leb, ltb,
  ◌==◌, if◌then◌else◌,
}

-- A set of characters: ranges with both ends.
abbrev pub CharSet : Type 0
CharSet = List (ℕ × ℕ)

abbrev pub in_set : CharSet → ℕ → Bool
in_set [] c = false
in_set ((lo, hi) ∷ s) c = (leb lo c && leb c hi) || in_set s c

pub data Item : Type 0 where
  one many : CharSet → Item

pub record Pattern : Type 0 where
  pub from_start : Bool
  pub items : List Item
  pub to_end : Bool

-- What the compiler has seen last. `bracket_last s c` has read `c`, which may begin a range;
-- `bracket_range s c` has read `c-`.
pub data Mode : Type 0 where
  plain escaped closed ended : Mode
  bracket : CharSet → Mode
  bracket_last bracket_range : CharSet → ℕ → Mode

pub record Compiler : Type 0 where
  pub mode : Mode
  pub items : List Item
  pub in_group : Bool

abbrev emit : Compiler → CharSet → Option Compiler
emit k s = some (record k { mode = plain; items = one s ∷ k.items })

abbrev starred : Compiler → List Item → Option Compiler
starred k (one s ∷ is) = some (record k { items = many s ∷ is })
starred k _ = none

abbrev is_special : ℕ → Bool
is_special c =
    (c == b'.') || (c == b'+') || (c == b'?') || (c == b'{') || (c == b'|') || (c == b'^')

-- The character behind which nothing special is pending; `star` says whether `*` may follow.
abbrev compile_plain : Compiler → Bool → ℕ → Option Compiler
compile_plain k star c =
    if c == 0x5c
    then some (record k { mode = escaped })
    else if c == b'['
    then some (record k { mode = bracket [] })
    else if c == b'('
    then (if k.in_group then none else some (record k { mode = plain; in_group = true }))
    else if c == b')'
    then (if k.in_group then some (record k { mode = closed; in_group = false }) else none)
    else if c == b'*'
    then (if star then starred k k.items else none)
    else if c == b'$'
    then some (record k { mode = ended })
    else if is_special c
    then none
    else emit k ((c, c) ∷ [])

abbrev compile_char : Compiler → Mode → ℕ → Option Compiler
compile_char k plain c = compile_plain k true c
compile_char k closed c = compile_plain k false c
compile_char k escaped c = emit k ((c, c) ∷ [])
compile_char k ended c = none
compile_char k (bracket s) c =
    if c == b']' then emit k s else some (record k { mode = bracket_last s c })
compile_char k (bracket_last s l) c =
    if c == b'-'
    then some (record k { mode = bracket_range s l })
    else if c == b']'
    then emit k ((l, l) ∷ s)
    else some (record k { mode = bracket_last ((l, l) ∷ s) c })
compile_char k (bracket_range s l) c =
    if c == b']'
    then emit k ((b'-', b'-') ∷ (l, l) ∷ s)
    else some (record k { mode = bracket ((l, c) ∷ s) })

compile : Compiler → List ℕ → Option Compiler
compile k [] = some k
compile k (c ∷ cs) = elim (compile_char k k.mode c) [ none ↦ none | some k' ↦ compile k' cs ]

-- A pattern may end after a character, a group or `$`.
finish_mode : Mode → Option Bool
finish_mode plain = some false
finish_mode closed = some false
finish_mode ended = some true
finish_mode _ = none

finish : Bool → Compiler → Option Pattern
unfolding finish_mode
finish start k = elim (finish_mode k.mode) [
  | none ↦ none
  | some stop ↦
      if k.in_group
      then none
      else some (record { from_start = start; items = reverse k.items; to_end = stop })
]

compile_from : Bool → List ℕ → Option Pattern
unfolding compile finish
compile_from start cs = elim (compile (record { mode = plain; items = []; in_group = false }) cs) [
  | none ↦ none
  | some k ↦ finish start k
]

unfoldable pub regcomp : List ℕ → Option Pattern
unfolding compile_from
regcomp [] = compile_from false []
regcomp (c ∷ cs) = if c == b'^' then compile_from true cs else compile_from false (c ∷ cs)

abbrev pub longer : Option ℕ → Option ℕ → Option ℕ
longer none m = m
longer (some a) none = some a
longer (some a) (some b) = if ltb a b then some b else some a

abbrev pub after_char : Option ℕ → Option ℕ
after_char none = none
after_char (some n) = some (suc n)

-- The length of the longest match of the items at the front of the text.
unfoldable pub match_items : Bool → List Item → List ℕ → Option ℕ
match_items false [] s = some 0
match_items true [] [] = some 0
match_items true [] (c ∷ s) = none
match_items stop (one set ∷ is) [] = none
match_items stop (one set ∷ is) (c ∷ s) = elim (in_set set c) [
  | true ↦ after_char (match_items stop is s)
  | false ↦ none
]
match_items stop (many set ∷ is) [] = match_items stop is []
match_items stop (many set ∷ is) (c ∷ s) = elim (in_set set c) [
  | true ↦ longer (match_items stop is (c ∷ s)) (after_char (match_items stop (many set ∷ is) s))
  | false ↦ match_items stop is (c ∷ s)
]

-- `regmatch_t`: the ends of the match.
pub record Found : Type 0 where
  pub start : ℕ
  pub end : ℕ

-- The leftmost match, and the longest there; `skipped` characters stand in front.
unfoldable pub search_from : Pattern → ℕ → List ℕ → Option Found
unfolding match_items
search_from p skipped [] = elim (match_items p.to_end p.items []) [
  | some n ↦ some (record { start = skipped; end = skipped + n })
  | none ↦ none
]
search_from p skipped (c ∷ s) =
    let later = search_from p (skipped + 1) s in
    elim (match_items p.to_end p.items (c ∷ s)) [
      | some n ↦ some (record { start = skipped; end = skipped + n })
      | none ↦ if p.from_start then none else later
    ]

unfoldable pub regexec : Pattern → List ℕ → Option Found
unfolding search_from
regexec p s = search_from p 0 s
