-- ===== src/Util/StringUtil/Copy.antt =====
-- util/string_util.c: what `strzcpy` leaves in a buffer, and what it needs.
use crinha.Prelude.{
  ℕ, zero, suc, ◌+◌, ◌≤◌, ◌<◌, ◌≡◌, refl, sym, ap, ◌∙◌, List, [], ◌∷◌, ◌++◌, length, take,
  length-append, arith, ok, fault, out_of_bounds, append_assoc, >>=-eq-ok, Exec-cases, inl, inr,
}
use crinha.Clib.Memory.{c_str, strlen, write_at, strncpy_bytes}
use crinha.Clib.Memory.Copy.{
  write_at-fits, write_at-overflow, write_at-fault, length-write_at, length-strncpy_bytes,
  c_str-strncpy_bytes, c_str-take-append,
}
use crinha.Util.StringUtil.{strzcpy}

take-append_length {ℓ} :
    {A : Type ℓ} (xs ys : List A) (k : ℕ) → length xs ≡ k → take k (xs ++ ys) ≡ xs
take-append_length [] ys zero h = refl
take-append_length [] ys (suc k) h = absurd (omega arith)
take-append_length (x ∷ xs) ys zero h = absurd (omega arith)
take-append_length (x ∷ xs) ys (suc k) h =
    ap (λ t. x ∷ t) (take-append_length xs ys k (omega arith))

length-take_le {ℓ} : {A : Type ℓ} (n : ℕ) (xs : List A) → n ≤ length xs → length (take n xs) ≡ n
length-take_le zero xs h = refl
length-take_le (suc n) [] h = absurd (omega arith)
length-take_le (suc n) (x ∷ xs) h = ap suc (length-take_le n xs (omega arith))

pub length-strzcpy :
    (dest : List ℕ) (offset : ℕ) (ori : List ℕ) (size : ℕ) {out : List ℕ}
    → strzcpy dest offset ori size ≡ ok out
    → length out ≡ length dest
unfolding strzcpy
length-strzcpy dest offset ori size h =
    let (copied, e, e') = >>=-eq-ok (write_at dest offset (strncpy_bytes ori size)) _ h in
    length-write_at copied (offset + size) (0 ∷ []) e' ∙ length-write_at dest offset _ e

-- The bytes that `strzcpy` leaves: those in front of the offset, the copy, and a NUL.
pub strzcpy_bytes :
    (dest : List ℕ) (offset : ℕ) (ori : List ℕ) (size : ℕ)
    → offset + size < length dest
    → (rest : List ℕ) × (strzcpy dest offset ori size
        ≡ ok (take offset dest ++ (strncpy_bytes ori size ++ 0 ∷ rest)))
unfolding strzcpy
strzcpy_bytes dest offset ori size h =
    let n = length-strncpy_bytes ori size in
    let (r, first) = write_at-fits dest offset (strncpy_bytes ori size) (omega (arith, n)) in
    let copied : List ℕ = take offset dest ++ strncpy_bytes ori size ++ r in
    let front : List ℕ = take offset dest ++ strncpy_bytes ori size in
    let front_length : length front ≡ offset + size = omega (
      arith,
      n,
      length-take_le offset dest (omega arith),
      length-append (take offset dest) (strncpy_bytes ori size),
    ) in
    let same : length copied ≡ length dest = length-write_at dest offset _ first in
    let (r', second) = write_at-fits copied (offset + size) (0 ∷ []) (omega (arith, same)) in
    let cut : take (offset + size) copied ≡ front =
      take-append_length front r (offset + size) front_length in
    (
      r',
      rw first (
          second
          ∙ ap ok (
              ap (λ t. t ++ 0 ∷ [] ++ r') cut
              ∙ append_assoc front (0 ∷ []) r'
              ∙ append_assoc (take offset dest) (strncpy_bytes ori size) (0 ∷ r'))),
    )

-- A copy to the front of a buffer that has room for it and its NUL leaves the first bytes of the
-- string.
pub strzcpy_front :
    (dest ori : List ℕ) (size : ℕ)
    → size < length dest
    → (out : List ℕ) × (strzcpy dest 0 ori size ≡ ok out) × (c_str out ≡ take size (c_str ori))
strzcpy_front dest ori size h =
    let (r, e) = strzcpy_bytes dest 0 ori size (omega arith) in
    (strncpy_bytes ori size ++ 0 ∷ r, e, c_str-strncpy_bytes ori size r)

-- `strzcpy` to the end of the string in a buffer with room for the copy and its NUL appends the first
-- bytes of the source, and keeps the buffer's size.
pub strzcpy_appends :
    (dest ori : List ℕ) (size : ℕ)
    → strlen dest + size < length dest
    → (out : List ℕ) × (strzcpy dest (strlen dest) ori size ≡ ok out)
      × (c_str out ≡ c_str dest ++ take size (c_str ori))
      × (length out ≡ length dest)
strzcpy_appends dest ori size h =
    let (r, e) = strzcpy_bytes dest (strlen dest) ori size h in
    (
      take (strlen dest) dest ++ (strncpy_bytes ori size ++ 0 ∷ r),
      e,
      c_str-take-append dest _ ∙ ap (λ t. c_str dest ++ t) (c_str-strncpy_bytes ori size r),
      length-strzcpy dest (strlen dest) ori size e,
    )

-- Without room for the copy and its NUL `strzcpy` runs over the end of the buffer.
pub strzcpy_overflow :
    (dest : List ℕ) (offset : ℕ) (ori : List ℕ) (size : ℕ)
    → length dest ≤ offset + size
    → strzcpy dest offset ori size ≡ fault out_of_bounds
unfolding strzcpy
strzcpy_overflow dest offset ori size h =
    elim (Exec-cases (write_at dest offset (strncpy_bytes ori size))) [
      | inl (out, e) ↦ rw e (
          write_at-overflow out (offset + size) 0 []
            (omega (arith, length-write_at dest offset (strncpy_bytes ori size) e)))
      | inr (f, e) ↦ rw (e, write_at-fault dest offset (strncpy_bytes ori size) e)
    ]

-- Writing the NUL once more at its place leaves the same string.
pub strzcpy_again :
    (dest : List ℕ) (offset : ℕ) (ori : List ℕ) (size : ℕ)
    → offset + size < length dest
    → (copied out rest : List ℕ) × (strzcpy dest offset ori size ≡ ok copied)
      × (write_at copied (size + offset) (0 ∷ []) ≡ ok out)
      × (out ≡ take offset dest ++ (strncpy_bytes ori size ++ 0 ∷ rest))
      × (length out ≡ length dest)
strzcpy_again dest offset ori size h =
    let (r, e) = strzcpy_bytes dest offset ori size h in
    let front : List ℕ = take offset dest ++ strncpy_bytes ori size in
    let copied : List ℕ = take offset dest ++ (strncpy_bytes ori size ++ 0 ∷ r) in
    let regrouped : copied ≡ front ++ 0 ∷ r =
      sym (append_assoc (take offset dest) (strncpy_bytes ori size) (0 ∷ r)) in
    let front_length : length front ≡ size + offset = omega (
      arith,
      length-strncpy_bytes ori size,
      length-take_le offset dest (omega arith),
      length-append (take offset dest) (strncpy_bytes ori size),
    ) in
    let same = length-strzcpy dest offset ori size e in
    let (r', w) = write_at-fits copied (size + offset) (0 ∷ []) (omega (arith, same)) in
    let cut : take (size + offset) copied ≡ front =
      ap (take (size + offset)) regrouped
      ∙ take-append_length front (0 ∷ r) (size + offset) front_length in
    let shape : take (size + offset) copied ++ 0 ∷ [] ++ r'
        ≡ take offset dest ++ (strncpy_bytes ori size ++ 0 ∷ r') =
      ap (λ t. t ++ 0 ∷ [] ++ r') cut
      ∙ append_assoc front (0 ∷ []) r'
      ∙ append_assoc (take offset dest) (strncpy_bytes ori size) (0 ∷ r') in
    (
      copied,
      take (size + offset) copied ++ 0 ∷ [] ++ r',
      r',
      e,
      w,
      shape,
      length-write_at copied (size + offset) (0 ∷ []) w ∙ same,
    )
