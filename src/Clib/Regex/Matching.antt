-- ===== src/Clib/Regex/Matching.antt =====
-- `match_items` against a relation: what the items match, and that the longest match is found.
use crinha.Prelude.{
  ℕ, suc, ◌≤◌, ◌≡◌, refl, ap, Bool, true, false, Option, none, some, List, [], ◌∷◌, ◌++◌, map,
  length, arith, Bool-cases, inl, inr, ◌⊎◌, ltb, sym, ◌∙◌, subst, append-nil,
}
use crinha.Clib.Regex.{CharSet, in_set, Item, one, many, longer, after_char, match_items}

pub data Matches : List Item → List ℕ → Type 0 where
  nil : Matches [] []
  char :
      {s : CharSet} {c : ℕ} {is : List Item} {w : List ℕ}
      → in_set s c ≡ true
      → Matches is w
      → Matches (one s ∷ is) (c ∷ w)
  stop : {s : CharSet} {is : List Item} {w : List ℕ} → Matches is w → Matches (many s ∷ is) w
  more :
      {s : CharSet} {c : ℕ} {is : List Item} {w : List ℕ}
      → in_set s c ≡ true
      → Matches (many s ∷ is) w
      → Matches (many s ∷ is) (c ∷ w)

abbrev pub AllIn : CharSet → List ℕ → Type 0
AllIn s [] = Unit {0}
AllIn s (c ∷ cs) = (in_set s c ≡ true) × AllIn s cs

-- With `$` nothing follows the match.
abbrev pub Tail : Bool → List ℕ → Type 0
Tail true r = r ≡ []
Tail false r = Unit {0}

record Split (e : Bool) (is : List Item) (s : List ℕ) (n : ℕ) : Type 0 where
  word : List ℕ
  rest : List ℕ
  split : s ≡ word ++ rest
  size : length word ≡ n
  matched : Matches is word
  tail : Tail e rest

Split-char :
    {e : Bool} {set : CharSet} {c : ℕ} {is : List Item} {s : List ℕ} {m : ℕ}
    → in_set set c ≡ true
    → Split e is s m
    → Split e (one set ∷ is) (c ∷ s) (suc m)
Split-char {c} h p = record {
  word = c ∷ p.word;
  rest = p.rest;
  split = ap (λ t. c ∷ t) p.split;
  size = ap suc p.size;
  matched = char h p.matched;
  tail = p.tail;
}

Split-more :
    {e : Bool} {set : CharSet} {c : ℕ} {is : List Item} {s : List ℕ} {m : ℕ}
    → in_set set c ≡ true
    → Split e (many set ∷ is) s m
    → Split e (many set ∷ is) (c ∷ s) (suc m)
Split-more {c} h p = record {
  word = c ∷ p.word;
  rest = p.rest;
  split = ap (λ t. c ∷ t) p.split;
  size = ap suc p.size;
  matched = more h p.matched;
  tail = p.tail;
}

Split-stop :
    {e : Bool} {set : CharSet} {is : List Item} {s : List ℕ} {m : ℕ}
    → Split e is s m
    → Split e (many set ∷ is) s m
Split-stop p = record {
  word = p.word;
  rest = p.rest;
  split = p.split;
  size = p.size;
  matched = stop p.matched;
  tail = p.tail;
}

after_char-eq-some :
    (o : Option ℕ) {n : ℕ} → after_char o ≡ some n → (m : ℕ) × (o ≡ some m) × (suc m ≡ n)
after_char-eq-some none h = cc
after_char-eq-some (some m) h = (m, refl, ground arith)

longer-eq-some : (a b : Option ℕ) {n : ℕ} → longer a b ≡ some n → (a ≡ some n) ⊎ (b ≡ some n)
longer-eq-some none b h = inr h
longer-eq-some (some a) none h = inl h
longer-eq-some (some a) (some b) h = ground arith

-- Whatever is found is a match.
match_items-Split :
    (e : Bool) (is : List Item) (s : List ℕ) (n : ℕ) → match_items e is s ≡ some n → Split e is s n
unfolding match_items
match_items-Split false [] s n h = record {
  word = [];
  rest = s;
  split = refl;
  size = ground arith;
  matched = nil;
  tail = tt;
}
match_items-Split true [] [] n h = record {
  word = [];
  rest = [];
  split = refl;
  size = ground arith;
  matched = nil;
  tail = refl;
}
match_items-Split true [] (c ∷ s) n h = cc
match_items-Split e (one set ∷ is) [] n h = cc
match_items-Split e (one set ∷ is) (c ∷ s) n h = elim (Bool-cases (in_set set c)) [
  | inl y ↦
      let (m, found, eq) = after_char-eq-some (match_items e is s) (rw (y, match_items) at h) in
      rw (← eq) (Split-char y (match_items-Split e is s m found))
  | inr x ↦ absurd (ground arith)
]
match_items-Split e (many set ∷ is) [] n h = Split-stop (match_items-Split e is [] n h)
match_items-Split e (many set ∷ is) (c ∷ s) n h = elim (Bool-cases (in_set set c)) [
  | inl y ↦
      elim (longer-eq-some (match_items e is (c ∷ s)) (after_char (match_items e (many set ∷ is) s))
        (rw (y, match_items) at h)) [
          | inl here ↦ Split-stop (match_items-Split e is (c ∷ s) n here)
          | inr there ↦
              let (m, found, eq) = after_char-eq-some (match_items e (many set ∷ is) s) there in
              rw (← eq) (Split-more y (match_items-Split e (many set ∷ is) s m found))
        ]
  | inr x ↦ Split-stop (match_items-Split e is (c ∷ s) n (rw (x, match_items) at h))
]

abbrev AtLeast : Option ℕ → ℕ → Type 0
AtLeast o k = (n : ℕ) × (o ≡ some n) × (k ≤ n)

after_char-AtLeast : (o : Option ℕ) {k : ℕ} → AtLeast o k → AtLeast (after_char o) (suc k)
after_char-AtLeast o (n, e, h) = (suc n, rw e, omega arith)

longer-AtLeast_left : (a b : Option ℕ) {k : ℕ} → AtLeast a k → AtLeast (longer a b) k
longer-AtLeast_left none b (n, e, h) = absurd (cc)
longer-AtLeast_left (some a) none h = h
longer-AtLeast_left (some a) (some b) {k} (n, e, h) = elim (Bool-cases (ltb a b)) [
  | inl y ↦ (b, rw y, ground arith)
  | inr y ↦ (a, rw y, ground arith)
]

longer-AtLeast_right : (a b : Option ℕ) {k : ℕ} → AtLeast b k → AtLeast (longer a b) k
longer-AtLeast_right none b h = h
longer-AtLeast_right (some a) none (n, e, h) = absurd (cc)
longer-AtLeast_right (some a) (some b) {k} (n, e, h) = elim (Bool-cases (ltb a b)) [
  | inl y ↦ (b, rw y, ground arith)
  | inr y ↦ (a, rw y, ground arith)
]

match_items-stop :
    (e : Bool) (set : CharSet) (is : List Item) (s : List ℕ) {k : ℕ}
    → AtLeast (match_items e is s) k
    → AtLeast (match_items e (many set ∷ is) s) k
unfolding match_items
match_items-stop e set is [] h = h
match_items-stop e set is (c ∷ s) h = elim (Bool-cases (in_set set c)) [
  | inl y ↦ rw (y, match_items) (longer-AtLeast_left _ _ h)
  | inr x ↦ rw (x, match_items) h
]

-- A match is found, or a longer one is.
pub match_items_complete :
    (e : Bool) (is : List Item) (w : List ℕ) (r : List ℕ)
    → Matches is w
    → Tail e r
    → AtLeast (match_items e is (w ++ r)) (length w)
unfolding match_items
match_items_complete true is w r nil t = (0, rw t, omega arith)
match_items_complete false is w r nil t = (0, refl, omega arith)
match_items_complete e is w r (char {s = set} {c} {is = is'} {w = w'} h m) t =
    rw (h, match_items)
      (after_char-AtLeast (match_items e is' (w' ++ r)) (match_items_complete e is' w' r m t))
match_items_complete e is w r (stop {s = set} {is = is'} m) t =
    match_items-stop e set is' (w ++ r) (match_items_complete e is' w r m t)
match_items_complete e is w r (more {s = set} {c} {is = is'} {w = w'} h m) t =
    rw (h, match_items)
      (longer-AtLeast_right _ _
        (after_char-AtLeast _ (match_items_complete e (many set ∷ is') w' r m t)))

one-inv :
    {set : CharSet} {is : List Item} {u : List ℕ}
    → Matches (one set ∷ is) u
    → (c : ℕ) × (v : List ℕ) × (u ≡ c ∷ v) × (in_set set c ≡ true) × Matches is v
one-inv (char {c} {w} h m) = (c, w, refl, h, m)

pub nil-inv : {u : List ℕ} → Matches [] u → u ≡ []
nil-inv nil = refl

pub many-inv :
    {set : CharSet} {is : List Item} {u : List ℕ}
    → Matches (many set ∷ is) u
    → (p : List ℕ) × (v : List ℕ) × (u ≡ p ++ v) × AllIn set p × Matches is v
many-inv (stop {w} m) = ([], w, refl, tt, m)
many-inv (more {c} h m) =
    let (p, v, e, a, r) = many-inv m in (c ∷ p, v, ap (λ t. c ∷ t) e, (h, a), r)

pub many-intro :
    (set : CharSet) {is : List Item} (p : List ℕ) {v : List ℕ}
    → AllIn set p
    → Matches is v
    → Matches (many set ∷ is) (p ++ v)
many-intro set [] h m = stop m
many-intro set (c ∷ p) h m = more h.0 (many-intro set p h.1 m)

-- The items of a text without special characters.
abbrev pub literal : List ℕ → List Item
literal = map (λ c. one ((c, c) ∷ []))

in_set_self : (c : ℕ) → in_set ((c, c) ∷ []) c ≡ true
in_set_self c = ground arith

pub literal-intro :
    (t : List ℕ) {is : List Item} {v : List ℕ} → Matches is v → Matches (literal t ++ is) (t ++ v)
literal-intro [] m = m
literal-intro (c ∷ t) m = char (in_set_self c) (literal-intro t m)

pub literal-inv :
    (t : List ℕ) {is : List Item} {u : List ℕ}
    → Matches (literal t ++ is) u
    → (v : List ℕ) × (u ≡ t ++ v) × Matches is v
literal-inv [] {u} m = (u, refl, m)
literal-inv (c ∷ t) m =
    let (d, v, e, h, m') = one-inv m in
    let (v', e', m'') = literal-inv t m' in
    let same : d ≡ c = ground (arith, h) in (v', rw (e, e', same), m'')

-- With `$`, what is found is all of the text.
pub match_items-matched :
    (is : List Item) (s : List ℕ) (n : ℕ) → match_items true is s ≡ some n → Matches is s
match_items-matched is s n h =
    let found = match_items-Split true is s n h in
    subst (Matches is) (sym (found.split ∙ ap (λ r. found.word ++ r) found.tail ∙ append-nil _))
      found.matched
