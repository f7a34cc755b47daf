-- ===== src/Util/StringUtil/Utf8.antt =====
-- util/string_util.c: the length of a UTF-8 text is its number of code points, and a copy keeps the
-- front of a string.

use crinha.Prelude.{
  ℕ, zero, suc, ◌==◌, ==_iff, subst, ◌+◌, ◌/◌, ◌%◌, ◌≤◌, ◌<◌, ◌≡◌, refl, ap, ◌∙◌, Bool, true, false,
  not, ◌&&◌, List, [], ◌∷◌, ◌++◌, length, arith, leb, ltb, if◌then◌else◌, Bool-cases, inl, inr, ◌⊎◌,
}
use crinha.Clib.Memory.{strlen}
use crinha.Util.StringUtil.{is_continuation, string_util_utf8_strlen}

-- A test of the `count` numbers from `start` on.
holds_from : ℕ → ℕ → (ℕ → Bool) → Bool
holds_from start zero test = true
holds_from start (suc count) test = holds_from (suc start) count test && test start

holds_from-inv :
    (start count : ℕ) (test : ℕ → Bool) (x : ℕ)
    → start ≤ x
    → x < start + count
    → holds_from start count test ≡ true
    → test x ≡ true
unfolding holds_from
holds_from-inv start zero test x low high all = absurd (omega arith)
holds_from-inv start (suc count) test x low high all = elim (Bool-cases (start == x)) [
  | inl here ↦
      let e : start ≡ x = (==_iff start x).0 here in
      subst (λ k. test k ≡ true) e (ground (arith, all))
  | inr other ↦
      holds_from-inv (suc start) count test x (ground (arith, other)) (omega arith)
        (ground (arith, all))
]

same : Bool → Bool → Bool
same true b = b
same false b = not b

same-eq : (a b : Bool) → same a b ≡ true → a ≡ b
unfolding same
same-eq a b h = ground arith

continuation_table :
    holds_from 0 256 (λ b. same (is_continuation b) (leb 128 b && ltb b 192)) ≡ true
unfolding holds_from is_continuation same
continuation_table = refl

pub is_continuation_lem : (b : ℕ) → b < 256 → is_continuation b ≡ (leb 128 b && ltb b 192)
is_continuation_lem b h = same-eq _ _ (holds_from-inv 0 256 _ b (omega arith) h continuation_table)

-- The bytes of a code point.
abbrev pub encode : ℕ → List ℕ
encode n =
    if ltb n 0x80
    then n ∷ []
    else if ltb n 0x800
    then (0xc0 + n / 64) ∷ (0x80 + n % 64) ∷ []
    else if ltb n 0x10000
    then (0xe0 + n / 4096) ∷ (0x80 + n / 64 % 64) ∷ (0x80 + n % 64) ∷ []
    else (0xf0 + n / 262144) ∷ (0x80 + n / 4096 % 64) ∷ (0x80 + n / 64 % 64) ∷ (0x80 + n % 64) ∷ []

abbrev pub encode_all : List ℕ → List ℕ
encode_all [] = []
encode_all (n ∷ ns) = encode n ++ encode_all ns

abbrev pub AllCodePoints : List ℕ → Type 0
AllCodePoints [] = Unit {0}
AllCodePoints (n ∷ ns) = (1 ≤ n) × (n < 0x110000) × AllCodePoints ns

lead :
    (b : ℕ) (bs : List ℕ)
    → 1 ≤ b
    → (b < 128) ⊎ ((192 ≤ b) × (b < 256))
    → string_util_utf8_strlen (b ∷ bs) ≡ string_util_utf8_strlen bs + 1
unfolding string_util_utf8_strlen
lead zero bs h k = absurd (omega arith)
lead (suc b) bs h k = ground (arith, is_continuation_lem (suc b))

follow :
    (b : ℕ) (bs : List ℕ)
    → b < 64
    → string_util_utf8_strlen ((0x80 + b) ∷ bs) ≡ string_util_utf8_strlen bs
unfolding string_util_utf8_strlen
follow b bs h = rw (shift b) (ground (arith, is_continuation_lem (suc (127 + b))))
  where
    shift : (k : ℕ) → 0x80 + k ≡ suc (127 + k)
    shift k = omega arith

encode-strlen :
    (n : ℕ) (bs : List ℕ)
    → 1 ≤ n
    → n < 0x110000
    → string_util_utf8_strlen (encode n ++ bs) ≡ string_util_utf8_strlen bs + 1
encode-strlen n bs h k = elim (Bool-cases (ltb n 0x80)) [
  | inl a ↦ rw a (lead n bs h (inl (ground arith)))
  | inr a ↦ elim (Bool-cases (ltb n 0x800)) [
    | inl b ↦
        rw (a, b)
          (lead (0xc0 + n / 64) _ (omega arith) (inr (omega arith, ground arith))
            ∙ ap (λ t. t + 1) (follow (n % 64) bs (omega arith)))
    | inr b ↦ elim (Bool-cases (ltb n 0x10000)) [
      | inl c ↦
          rw (a, b, c)
            (lead (0xe0 + n / 4096) _ (omega arith) (inr (omega arith, ground arith))
              ∙ ap (λ t. t + 1)
                  (follow (n / 64 % 64) _ (omega arith) ∙ follow (n % 64) bs (omega arith)))
      | inr c ↦
          rw (a, b, c)
            (lead (0xf0 + n / 262144) _ (omega arith) (inr (omega arith, omega arith))
              ∙ ap (λ t. t + 1)
                  (follow (n / 4096 % 64) _ (omega arith)
                    ∙ follow (n / 64 % 64) _ (omega arith)
                    ∙ follow (n % 64) bs (omega arith)))
    ]
  ]
]

-- The length that the server computes of a text in UTF-8 is its number of code points.
pub utf8_strlen-encode_all :
    (ns : List ℕ) → AllCodePoints ns → string_util_utf8_strlen (encode_all ns) ≡ length ns
utf8_strlen-encode_all [] h = utf8_strlen-nil
  where
    utf8_strlen-nil : string_util_utf8_strlen [] ≡ 0
    utf8_strlen-nil = unfold string_util_utf8_strlen in refl
utf8_strlen-encode_all (n ∷ ns) h =
    encode-strlen n (encode_all ns) h.0 h.1 ∙ omega (arith, utf8_strlen-encode_all ns h.2)

-- No text has more code points than bytes.
pub utf8_strlen-le : (s : List ℕ) → string_util_utf8_strlen s ≤ strlen s
unfolding string_util_utf8_strlen
utf8_strlen-le [] = omega arith
utf8_strlen-le (zero ∷ s) = omega arith
utf8_strlen-le (suc b ∷ s) = ground (arith, utf8_strlen-le s)
