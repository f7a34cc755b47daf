-- ===== src/Clib/Regex/Framed.antt =====
-- Patterns `^pre[set]*post$`.
use crinha.Prelude.{
  ℕ, ◌≡◌, refl, sym, ap, ◌∙◌, ◌≢◌, ◌↔◌, true, none, some, List, [], ◌∷◌, ◌++◌, arith, append-nil,
  Option-cases, inl, inr, subst,
}
use crinha.Clib.Regex.{CharSet, Item, many, Pattern, match_items, search_from, regexec}
use crinha.Clib.Regex.Matching.{
  Matches, nil, AllIn, literal, literal-intro, literal-inv, many-intro, many-inv, nil-inv,
  match_items-matched, match_items_complete,
}

-- A pattern of a text, one starred set and a text, tied to both ends.
abbrev pub framed : List ℕ → CharSet → List ℕ → Pattern
framed pre set post = record {
  from_start = true;
  items = literal pre ++ many set ∷ (literal post ++ []);
  to_end = true;
}

search_anchored :
    (is : List Item) (k : ℕ) (s : List ℕ)
    → (search_from (record { from_start = true; items = is; to_end = true }) k s ≢ none)
      ↔ (match_items true is s ≢ none)
unfolding search_from
search_anchored is k [] = ground arith
search_anchored is k (c ∷ s) = ground arith

framed-inv :
    (pre post : List ℕ) (set : CharSet) {u : List ℕ}
    → Matches (literal pre ++ many set ∷ (literal post ++ [])) u
    → (p : List ℕ) × (u ≡ pre ++ (p ++ post)) × AllIn set p
framed-inv pre post set m =
    let (v, e, m') = literal-inv pre m in
    let (p, w, e', a, m'') = many-inv m' in
    let (x, e'', m3) = literal-inv post m'' in
    let whole : w ≡ post = e'' ∙ ap (λ t. post ++ t) (nil-inv m3) ∙ append-nil post in
    (p, e ∙ ap (λ t. pre ++ t) (e' ∙ ap (λ t. p ++ t) whole), a)

framed-intro :
    (pre post : List ℕ) (set : CharSet) (p : List ℕ)
    → AllIn set p
    → Matches (literal pre ++ many set ∷ (literal post ++ [])) (pre ++ (p ++ post))
framed-intro pre post set p a = literal-intro pre (
    many-intro set p a
      (subst (Matches (literal post ++ [])) (append-nil post) (literal-intro post nil)))

-- Such a pattern matches exactly the strings of the two texts around characters of the set.
pub framed-matches_iff :
    (pre post : List ℕ) (set : CharSet) (u : List ℕ)
    → (regexec (framed pre set post) u ≢ none)
      ↔ ((p : List ℕ) × (u ≡ pre ++ (p ++ post)) × AllIn set p)
unfolding regexec
framed-matches_iff pre post set u = (to, from)
  where
    items : List Item
    items = literal pre ++ many set ∷ (literal post ++ [])

    to :
        search_from (framed pre set post) 0 u ≢ none
        → (p : List ℕ) × (u ≡ pre ++ (p ++ post)) × AllIn set p
    to h = elim (Option-cases (match_items true items u)) [
      | inl e ↦ absurd ((search_anchored items 0 u).0 h e)
      | inr (n, e) ↦ framed-inv pre post set (match_items-matched items u n e)
    ]

    from :
        (p : List ℕ) × (u ≡ pre ++ (p ++ post)) × AllIn set p
        → search_from (framed pre set post) 0 u ≢ none
    from (p, e, a) =
        let (n, found, _) =
          match_items_complete true items (pre ++ (p ++ post)) [] (framed-intro pre post set p a)
            refl in
        let found' : match_items true items (pre ++ (p ++ post)) ≡ some n =
          ap (match_items true items) (sym (append-nil (pre ++ (p ++ post)))) ∙ found in
        (search_anchored items 0 u).1
          (λ missed. cc (sym missed ∙ ap (match_items true items) e ∙ found'))
