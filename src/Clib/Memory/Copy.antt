-- ===== src/Clib/Memory/Copy.antt =====
-- What a copy into a buffer needs, and what string it leaves there.
use crinha.Prelude.{
  ℕ, zero, suc, ◌+◌, ◌≤◌, ◌<◌, ◌≡◌, refl, ap, List, [], ◌∷◌, ◌++◌, length, take, arith, ok, fault,
  out_of_bounds, >>=-eq-ok, Fault, Exec-cases, inl, inr,
}
use crinha.Clib.Memory.{c_str, strlen, overwrite, write_at, strncpy_bytes, IsText}

pub length-overwrite :
    (bs xs : List ℕ) {cs : List ℕ} → overwrite bs xs ≡ ok cs → length cs ≡ length bs
unfolding overwrite
length-overwrite bs [] h = cc
length-overwrite [] (x ∷ xs) h = cc
length-overwrite (b ∷ bs) (x ∷ xs) h =
    let (rest, e, e') = >>=-eq-ok (overwrite bs xs) _ h in ground (arith, length-overwrite bs xs e)

pub length-write_at :
    (bs : List ℕ) (n : ℕ) (xs : List ℕ) {cs : List ℕ}
    → write_at bs n xs ≡ ok cs
    → length cs ≡ length bs
unfolding write_at
length-write_at bs zero xs h = length-overwrite bs xs h
length-write_at [] (suc n) [] h = ground arith
length-write_at [] (suc n) (x ∷ xs) h = cc
length-write_at (b ∷ bs) (suc n) xs h =
    let (rest, e, e') = >>=-eq-ok (write_at bs n xs) _ h in
    ground (arith, length-write_at bs n xs e)

pub length-strncpy_bytes : (s : List ℕ) (n : ℕ) → length (strncpy_bytes s n) ≡ n
length-strncpy_bytes s zero = refl
length-strncpy_bytes [] (suc n) = ap suc (length-strncpy_bytes [] n)
length-strncpy_bytes (zero ∷ s) (suc n) = ap suc (length-strncpy_bytes [] n)
length-strncpy_bytes (suc c ∷ s) (suc n) = ap suc (length-strncpy_bytes s n)

-- The bytes after the copied ones.
pub overwrite-fits :
    (bs xs : List ℕ)
    → length xs ≤ length bs
    → (rest : List ℕ) × (overwrite bs xs ≡ ok (xs ++ rest)) × (length xs + length rest ≡ length bs)
unfolding overwrite
overwrite-fits bs [] h = (bs, refl, omega arith)
overwrite-fits [] (x ∷ xs) h = absurd (omega arith)
overwrite-fits (b ∷ bs) (x ∷ xs) h =
    let (rest, e, n) = overwrite-fits bs xs (omega arith) in (rest, rw e, omega arith)

pub overwrite-overflow :
    (bs xs : List ℕ) → length bs < length xs → overwrite bs xs ≡ fault out_of_bounds
unfolding overwrite
overwrite-overflow bs [] h = absurd (omega arith)
overwrite-overflow [] (x ∷ xs) h = refl
overwrite-overflow (b ∷ bs) (x ∷ xs) h = rw (overwrite-overflow bs xs (omega arith))

pub write_at-fits :
    (bs : List ℕ) (n : ℕ) (xs : List ℕ)
    → n + length xs ≤ length bs
    → (rest : List ℕ) × (write_at bs n xs ≡ ok (take n bs ++ xs ++ rest))
unfolding write_at
write_at-fits bs zero xs h = let (rest, e, _) = overwrite-fits bs xs (omega arith) in (rest, e)
write_at-fits [] (suc n) [] h = absurd (omega arith)
write_at-fits [] (suc n) (x ∷ xs) h = absurd (omega arith)
write_at-fits (b ∷ bs) (suc n) xs h =
    let (rest, e) = write_at-fits bs n xs (omega arith) in (rest, rw e)

pub write_at-overflow :
    (bs : List ℕ) (n x : ℕ) (xs : List ℕ)
    → length bs < n + length (x ∷ xs)
    → write_at bs n (x ∷ xs) ≡ fault out_of_bounds
unfolding write_at
write_at-overflow bs zero x xs h = overwrite-overflow bs (x ∷ xs) (omega arith)
write_at-overflow [] (suc n) x xs h = refl
write_at-overflow (b ∷ bs) (suc n) x xs h = rw (write_at-overflow bs n x xs (omega arith))

c_str-strncpy_bytes-nil : (n : ℕ) (r : List ℕ) → c_str (strncpy_bytes [] n ++ 0 ∷ r) ≡ []
c_str-strncpy_bytes-nil zero r = refl
c_str-strncpy_bytes-nil (suc n) r = refl

-- `strncpy` and a NUL behind it leave the first `n` bytes of the string.
pub c_str-strncpy_bytes :
    (s : List ℕ) (n : ℕ) (r : List ℕ) → c_str (strncpy_bytes s n ++ 0 ∷ r) ≡ take n (c_str s)
c_str-strncpy_bytes s zero r = refl
c_str-strncpy_bytes [] (suc n) r = refl
c_str-strncpy_bytes (zero ∷ s) (suc n) r = refl
c_str-strncpy_bytes (suc c ∷ s) (suc n) r = ap (λ t. suc c ∷ t) (c_str-strncpy_bytes s n r)

-- A string that starts where the buffer's string ends is appended to it.
pub c_str-take-append : (bs xs : List ℕ) → c_str (take (strlen bs) bs ++ xs) ≡ c_str bs ++ c_str xs
c_str-take-append [] xs = refl
c_str-take-append (zero ∷ bs) xs = refl
c_str-take-append (suc b ∷ bs) xs = ap (λ t. suc b ∷ t) (c_str-take-append bs xs)

pub c_str-text : (s : List ℕ) → IsText s → c_str s ≡ s
c_str-text [] h = refl
c_str-text (zero ∷ s) h = absurd (omega arith)
c_str-text (suc b ∷ s) h = ap (λ t. suc b ∷ t) (c_str-text s h.1)

pub c_str-IsText : (s : List ℕ) → IsText (c_str s)
c_str-IsText [] = tt
c_str-IsText (zero ∷ s) = tt
c_str-IsText (suc b ∷ s) = (omega arith, c_str-IsText s)

pub strlen-le : (s : List ℕ) → strlen s ≤ length s
strlen-le [] = omega arith
strlen-le (zero ∷ s) = omega arith
strlen-le (suc b ∷ s) = omega (arith, strlen-le s)

overwrite-fault : (bs xs : List ℕ) {f : Fault} → overwrite bs xs ≡ fault f → f ≡ out_of_bounds
unfolding overwrite
overwrite-fault bs [] h = cc
overwrite-fault [] (x ∷ xs) h = ground arith
overwrite-fault (b ∷ bs) (x ∷ xs) {f} h = elim (Exec-cases (overwrite bs xs)) [
  | inl (a, e) ↦ absurd (cc (rw e at h))
  | inr (g, e) ↦ overwrite-fault bs xs (rw e (rw e at h))
]

-- A write fails in one way.
pub write_at-fault :
    (bs : List ℕ) (n : ℕ) (xs : List ℕ) {f : Fault} → write_at bs n xs ≡ fault f → f ≡ out_of_bounds
unfolding write_at
write_at-fault bs zero xs h = overwrite-fault bs xs h
write_at-fault [] (suc n) [] h = cc
write_at-fault [] (suc n) (x ∷ xs) h = ground arith
write_at-fault (b ∷ bs) (suc n) xs {f} h = elim (Exec-cases (write_at bs n xs)) [
  | inl (a, e) ↦ absurd (cc (rw e at h))
  | inr (g, e) ↦ write_at-fault bs n xs (rw e (rw e at h))
]

pub take-le {ℓ} : {A : Type ℓ} (n : ℕ) (xs : List A) → length xs ≤ n → take n xs ≡ xs
take-le zero [] h = refl
take-le zero (x ∷ xs) h = absurd (omega arith)
take-le (suc n) [] h = refl
take-le (suc n) (x ∷ xs) h = ap (λ t. x ∷ t) (take-le n xs (omega arith))

pub c_str-append : (a b : List ℕ) → IsText a → c_str (a ++ b) ≡ a ++ c_str b
c_str-append [] b h = refl
c_str-append (zero ∷ a) b h = absurd (omega arith)
c_str-append (suc c ∷ a) b h = ap (λ t. suc c ∷ t) (c_str-append a b h.1)
