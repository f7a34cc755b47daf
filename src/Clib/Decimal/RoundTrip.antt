-- ===== src/Clib/Decimal/RoundTrip.antt =====
-- What is printed in decimal is read back.
use native.Mathlib.Nat.{pow-suc}
use crinha.Prelude.{
  ℕ, zero, suc, ◌+◌, ◌-◌, ◌*◌, ◌/◌, ◌%◌, ◌^◌, ◌≤◌, ◌<◌, ◌≡◌, ap, ◌∙◌, subst, true, List, [], ◌∷◌,
  ◌++◌, length, length-append, arith, ltb, Bool-cases, inl, inr,
}
use crinha.Prelude.Int.{
  ℤ, pos, negsuc, neg_ℤ, neg_ℤ_parts, eq_of_parts, wrap32_in_range, IsInt32, IsInt64,
}
use crinha.Clib.Memory.{isdigit, IsText}
use crinha.Clib.Decimal.{digits, decimal, decimal_ℤ, digits_value, signed_value, atol, atoi}

abbrev pub AllDigits : List ℕ → Type 0
AllDigits [] = Unit {0}
AllDigits (c ∷ cs) = (isdigit c ≡ true) × AllDigits cs

pub AllDigits-append : (xs ys : List ℕ) → AllDigits xs → AllDigits ys → AllDigits (xs ++ ys)
AllDigits-append [] ys h k = k
AllDigits-append (x ∷ xs) ys h k = (h.0, AllDigits-append xs ys h.1 k)

pub AllDigits-IsText : (xs : List ℕ) → AllDigits xs → IsText xs
AllDigits-IsText [] h = tt
AllDigits-IsText (x ∷ xs) h = (ground (arith, h.0), AllDigits-IsText xs h.1)

digit_lem : (n : ℕ) → n < 10 → isdigit (b'0' + n) ≡ true
digit_lem n h = ground arith

digits-AllDigits : (f n : ℕ) → AllDigits (digits f n)
unfolding digits
digits-AllDigits zero n = tt
digits-AllDigits (suc f) n = elim (Bool-cases (ltb n 10)) [
  | inl small ↦ rw small (digit_lem n (ground arith), tt)
  | inr big ↦ rw big (
      AllDigits-append (digits f (n / 10)) _ (digits-AllDigits f (n / 10))
        (digit_lem (n % 10) (omega arith), tt))
]

pub decimal-AllDigits : (n : ℕ) → AllDigits (decimal n)
unfolding decimal
decimal-AllDigits n = digits-AllDigits (suc n) n

-- One digit more at the end.
digits_value-snoc :
    (acc : ℕ) (xs : List ℕ) (d : ℕ)
    → AllDigits xs
    → isdigit d ≡ true
    → digits_value acc (xs ++ d ∷ []) ≡ digits_value acc xs * 10 + (d - b'0')
unfolding digits_value
digits_value-snoc acc [] d h k = rw (k, digits_value)
digits_value-snoc acc (x ∷ xs) d h k =
    rw (h.0, digits_value) (digits_value-snoc (acc * 10 + (x - b'0')) xs d h.1 k)

digits_value-digits : (f n : ℕ) → n < f → digits_value 0 (digits f n) ≡ n
unfolding digits digits_value
digits_value-digits zero n h = elim h [ ]
digits_value-digits (suc f) n h = elim (Bool-cases (ltb n 10)) [
  | inl small ↦ ground (arith, digit_lem n)
  | inr big ↦ rw big (
      rw
        (
          digits_value-snoc 0 (digits f (n / 10)) (b'0' + n % 10) (digits-AllDigits f (n / 10))
              (digit_lem (n % 10) (omega arith)),
          digits_value-digits f (n / 10) (ground arith),
        )
        (omega arith))
]

pub digits_value-decimal : (n : ℕ) → digits_value 0 (decimal n) ≡ n
unfolding decimal
digits_value-decimal n = digits_value-digits (suc n) n (omega arith)

digits-length : (f n k : ℕ) → n < 10 ^ suc k → length (digits f n) ≤ suc k
unfolding digits
digits-length zero n k h = omega arith
digits-length (suc f) n zero h = elim (Bool-cases (ltb n 10)) [
  | inl small ↦ rw small (omega arith)
  | inr big ↦ absurd (ground (arith, pow-suc 10 0))
]
digits-length (suc f) n (suc k) h = elim (Bool-cases (ltb n 10)) [
  | inl small ↦ rw small (omega arith)
  | inr big ↦
      let n' : n / 10 < 10 ^ suc k = omega (arith, pow-suc 10 (suc k)) in
      rw big (
        omega (
          arith,
          length-append (digits f (n / 10)) ((b'0' + n % 10) ∷ []),
          digits-length f (n / 10) k n',
        ))
]

-- A number below 10^(k + 1) has at most k + 1 digits.
pub decimal-length : (n k : ℕ) → n < 10 ^ suc k → length (decimal n) ≤ suc k
unfolding decimal
decimal-length n k h = digits-length (suc n) n k h

digits-cons :
    (f n : ℕ) → n < f → (c : ℕ) × (cs : List ℕ) × (digits f n ≡ c ∷ cs) × (isdigit c ≡ true)
unfolding digits
digits-cons zero n h = elim h [ ]
digits-cons (suc f) n h = elim (Bool-cases (ltb n 10)) [
  | inl small ↦ (b'0' + n, [], rw small, ground arith)
  | inr big ↦
      let (c, cs, e, d) = digits-cons f (n / 10) (ground arith) in
      (c, cs ++ (b'0' + n % 10) ∷ [], rw (big, e), d)
]

atol_digits : (c : ℕ) (cs : List ℕ) → isdigit c ≡ true → atol (c ∷ cs) ≡ signed_value (c ∷ cs)
unfolding atol
atol_digits c cs d = ground arith

-- `atol` of a string of digits is its value, if that fits.
pub atol-value :
    (c : ℕ) (cs : List ℕ)
    → isdigit c ≡ true
    → digits_value 0 (c ∷ cs) < 2 ^ 63
    → atol (c ∷ cs) ≡ pos (digits_value 0 (c ∷ cs))
unfolding signed_value
atol-value c cs d h = atol_digits c cs d ∙ ground arith

-- A printed number begins with a digit, and has its value.
pub decimal-cons :
    (n : ℕ)
    → (c : ℕ) × (cs : List ℕ) × (decimal n ≡ c ∷ cs)
      × (isdigit c ≡ true)
      × (digits_value 0 (c ∷ cs) ≡ n)
unfolding decimal
decimal-cons n =
    let (c, cs, e, d) = digits-cons (suc n) n (omega arith) in
    (c, cs, e, d, subst (λ t. digits_value 0 t ≡ n) e (digits_value-decimal n))

pub atol-decimal : (n : ℕ) → n < 2 ^ 63 → atol (decimal n) ≡ pos n
atol-decimal n h =
    let (c, cs, e, d, v) = decimal-cons n in rw e (atol-value c cs d (omega (arith, v)) ∙ ap pos v)

atol-minus :
    (cs : List ℕ) → digits_value 0 cs ≤ 2 ^ 63 → atol (b'-' ∷ cs) ≡ neg_ℤ (pos (digits_value 0 cs))
unfolding atol signed_value
atol-minus cs h = ground arith

-- A number printed with `%ld` and read with `atol` comes back.
pub atol-decimal_ℤ : (z : ℤ) → IsInt64 z → atol (decimal_ℤ z) ≡ z
unfolding decimal_ℤ
atol-decimal_ℤ (pos n) h = atol-decimal n (omega arith)
atol-decimal_ℤ (negsuc n) h =
    atol-minus (decimal (suc n)) (omega (arith, digits_value-decimal (suc n)))
    ∙ ap (λ k. neg_ℤ (pos k)) (digits_value-decimal (suc n))
    ∙ neg_ℤ_suc n
  where
    neg_ℤ_suc : (k : ℕ) → neg_ℤ (pos (suc k)) ≡ negsuc k
    neg_ℤ_suc k = omega (arith, neg_ℤ_parts (pos (suc k)), eq_of_parts (neg_ℤ (pos (suc k))))

-- So does a 32-bit number printed with `%d` and read with `atoi`.
pub atoi-decimal_ℤ : (z : ℤ) → IsInt32 z → atoi (decimal_ℤ z) ≡ z
unfolding atoi
atoi-decimal_ℤ z h = rw (atol-decimal_ℤ z (omega arith)) (wrap32_in_range z h)
