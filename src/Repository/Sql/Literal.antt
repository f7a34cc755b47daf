-- ===== src/Repository/Sql/Literal.antt =====
-- repository/transacao_repository.c: the description in the text of the command.
use crinha.Prelude.{
  ℕ, suc, ◌+◌, ◌<◌, ◌≡◌, ◌↔◌, refl, sym, ap, ◌∙◌, ◌==◌, true, false, Bool-cases, inl, inr, List, [],
  ◌∷◌, ◌++◌, append_assoc, drop, codes, joined, length, length-append, if◌then◌else◌, arith,
}
use crinha.Clib.Memory.{c_str}
use crinha.Clib.Decimal.{decimal_ℤ}
use crinha.Entity.{Transacao}
use crinha.Repository.Sql.{insert_command, print_d}

-- Two characters of a string, with what is read behind the first and behind both.
abbrev next_literal : ℕ → ℕ → List ℕ → List ℕ × List ℕ → List ℕ × List ℕ → List ℕ × List ℕ
next_literal c d cs one two =
    if c == 39 then (if d == 39 then (39 ∷ two.0, two.1) else ([], d ∷ cs)) else (c ∷ one.0, one.1)

-- How SQL reads a string behind its opening quote (39): a quote ends it, two stand for one. The string,
-- and what is left.
unfoldable pub literal : List ℕ → List ℕ × List ℕ
literal [] = ([], [])
literal (c ∷ []) = if c == 39 then ([], []) else (c ∷ [], [])
literal (c ∷ d ∷ cs) = next_literal c d cs (literal (d ∷ cs)) (literal cs)

abbrev pub HasNoQuote : List ℕ → Type 0
HasNoQuote [] = Unit {0}
HasNoQuote (c ∷ cs) = ((c == 39) ≡ false) × HasNoQuote cs

literal-cons :
    (c : ℕ) (cs : List ℕ)
    → (c == 39) ≡ false
    → literal (c ∷ cs) ≡ (c ∷ (literal cs).0, (literal cs).1)
unfolding literal
literal-cons c [] h = rw (h, literal) refl
literal-cons c (d ∷ cs) h = rw (h, literal) refl

abbrev size : List ℕ × List ℕ → ℕ
size out = length out.0 + length out.1

next_literal-size :
    (c d : ℕ) (cs : List ℕ) (one two : List ℕ × List ℕ)
    → (0 < length one.1 → size one < suc (length cs))
    → (0 < length two.1 → size two < length cs)
    → 0 < length (next_literal c d cs one two).1
    → size (next_literal c d cs one two) < suc (suc (length cs))
next_literal-size c d cs one two h k left = elim (Bool-cases (c == 39)) [
  | inr f ↦ rw f (omega (arith, h (rw f at left)))
  | inl y ↦ elim (Bool-cases (d == 39)) [
    | inl z ↦ rw (y, z) (omega (arith, k (rw (y, z) at left)))
    | inr g ↦ rw (y, g) (omega arith)
  ]
]

-- What is left of a string that ends is shorter by its closing quote.
literal-size : (s : List ℕ) → 0 < length (literal s).1 → size (literal s) < length s
unfolding literal
literal-size [] h = absurd (omega arith)
literal-size (c ∷ []) h = elim (Bool-cases (c == 39)) [
  | inl y ↦ absurd (none_left (rw y at h))
  | inr f ↦ absurd (none_left (rw f at h))
]
  where
    none_left : 0 < 0 → ⊥
    none_left h = omega arith
literal-size (c ∷ d ∷ cs) h =
    next_literal-size c d cs (literal (d ∷ cs)) (literal cs) (literal-size (d ∷ cs))
      (literal-size cs) h

-- A string that begins with two quotes is shorter by them.
next_literal-quoted :
    (c d : ℕ) (cs : List ℕ) (one two : List ℕ × List ℕ)
    → (c == 39) ≡ true
    → (0 < length two.1 → size two < length cs)
    → 0 < length (next_literal c d cs one two).0
    → 0 < length (next_literal c d cs one two).1
    → size (next_literal c d cs one two) + 1 < suc (suc (length cs))
next_literal-quoted c d cs one two y k some_text left = elim (Bool-cases (d == 39)) [
  | inl z ↦ rw (y, z) (omega (arith, k (rw (y, z) at left)))
  | inr g ↦ absurd (nothing (rw (y, g) at some_text))
]
  where
    nothing : 0 < 0 → ⊥
    nothing h = omega arith

literal-quoted :
    (c : ℕ) (s : List ℕ)
    → (c == 39) ≡ true
    → 0 < length (literal (c ∷ s)).0
    → 0 < length (literal (c ∷ s)).1
    → size (literal (c ∷ s)) + 1 < length (c ∷ s)
unfolding literal
literal-quoted c [] y h k = absurd (nothing (rw y at h))
  where
    nothing : 0 < 0 → ⊥
    nothing h = omega arith
literal-quoted c (d ∷ cs) y h k =
    next_literal-quoted c d cs (literal (d ∷ cs)) (literal cs) y (literal-size cs) h k

module _ (rest : List ℕ) where
  -- A text between quotes is read as it is if it has no quote.
  literal-no_quote :
      (s : List ℕ) → HasNoQuote s → literal (s ++ 39 ∷ (b')' ∷ rest)) ≡ (s, b')' ∷ rest)
  unfolding literal
  literal-no_quote [] h = refl
  literal-no_quote (c ∷ s) h =
      literal-cons c (s ++ 39 ∷ (b')' ∷ rest)) h.0
      ∙ ap (λ x. (c ∷ x.0, x.1)) (literal-no_quote s h.1)

  no_quote-literal :
      (s : List ℕ) → literal (s ++ 39 ∷ (b')' ∷ rest)) ≡ (s, b')' ∷ rest) → HasNoQuote s
  no_quote-literal [] h = tt
  no_quote-literal (c ∷ s) h = elim (Bool-cases (c == 39)) [
    | inr f ↦ (
      f,
      no_quote-literal s
          (ap (λ x. (tail x.0, x.1)) (sym (literal-cons c (s ++ 39 ∷ (b')' ∷ rest)) f) ∙ h)),
    )
    | inl y ↦
        let lengths : (length (literal (c ∷ (s ++ 39 ∷ (b')' ∷ rest)))).0 ≡ suc (length s))
            × (length (literal (c ∷ (s ++ 39 ∷ (b')' ∷ rest)))).1 ≡ suc (length rest)) =
          (ap (λ x. length x.0) h, ap (λ x. length x.1) h) in
        absurd (
          omega (
            arith,
            lengths.0,
            lengths.1,
            length-append s (39 ∷ (b')' ∷ rest)),
            literal-quoted c (s ++ 39 ∷ (b')' ∷ rest)) y (omega (arith, lengths.0))
                (omega (arith, lengths.1)),
          ))
  ]
    where
      tail : List ℕ → List ℕ
      tail [] = []
      tail (x ∷ xs) = xs

-- The pieces of the command up to the description's opening quote.
abbrev pub before_descricao : Transacao → List (List ℕ)
unfolding print_d decimal_ℤ
before_descricao t =
    codes "insert into transacao(id_cliente, valor, tipo, descricao) values("
    ∷ print_d t.id_cliente
    ∷ codes ", "
    ∷ decimal_ℤ t.valor
    ∷ codes ", '"
    ∷ c_str t.tipo
    ∷ codes "', '"
    ∷ []

joined-append : (ps qs : List (List ℕ)) → joined (ps ++ qs) ≡ joined ps ++ joined qs
joined-append [] qs = refl
joined-append (p ∷ ps) qs =
    ap (λ t. p ++ t) (joined-append ps qs) ∙ sym (append_assoc p (joined ps) (joined qs))

drop-append : (xs ys : List ℕ) → drop (length xs) (xs ++ ys) ≡ ys
drop-append [] ys = refl
drop-append (x ∷ xs) ys = drop-append xs ys

-- The database reads the description of a transaction from the text that inserts it, with the end of
-- the command left, exactly if the description holds no quote: one with a quote ends the literal early,
-- or is read as another one.
pub insert_command-literal :
    (t : Transacao)
    → (literal (drop (length (joined (before_descricao t))) (insert_command t))
        ≡ (c_str t.descricao, codes ");"))
      ↔ HasNoQuote (c_str t.descricao)
unfolding insert_command before_descricao
insert_command-literal t =
    let same : drop (length (joined (before_descricao t))) (insert_command t)
        ≡ c_str t.descricao ++ codes "');" =
      ap (drop (length (joined (before_descricao t))))
        (joined-append (before_descricao t) (c_str t.descricao ∷ codes "');" ∷ []))
      ∙ drop-append (joined (before_descricao t)) (c_str t.descricao ++ codes "');") in
    (
      λ h. no_quote-literal (b';' ∷ []) (c_str t.descricao) (ap literal (sym same) ∙ h),
      λ h. ap literal same ∙ literal-no_quote (b';' ∷ []) (c_str t.descricao) h,
    )
