-- ===== src/Util/ArrayList/Fifo.antt =====
-- util/array_list.c: what `push` and `pop` do to the numbers in the list.
use crinha.Prelude.{
  ℕ, zero, suc, ◌+◌, ◌*◌, ◌≤◌, ◌<◌, ◌≡◌, refl, sym, ap, List, [], ◌∷◌, ◌++◌, length, take, drop,
  set, arith, ok, fault, out_of_bounds,
}
use crinha.Prelude.Int.{ℤ}
use crinha.Util.ArrayList.{IntArrayList, push, pop, shift}

-- The numbers in the list.
abbrev pub contents : IntArrayList → List ℤ
contents l = take l.size l.values

take-set :
    (vs : List ℤ) (n k : ℕ) (v : ℤ)
    → n < length vs
    → k ≡ suc n
    → take k (set vs n v) ≡ take n vs ++ v ∷ []
take-set vs n zero v h e = absurd (omega arith)
take-set [] n (suc k) v h e = absurd (omega arith)
take-set (x ∷ vs) zero (suc k) v h e =
    let none_left : k ≡ zero = omega arith in ap (λ m. v ∷ take m vs) none_left
take-set (x ∷ vs) (suc n) (suc k) v h e =
    ap (λ t. x ∷ t) (take-set vs n k v (omega arith) (omega arith))

-- `push` puts a number behind the others, if the array has room for it.
pub push-contents :
    (l : IntArrayList) (v : ℤ)
    → l.size < l.max_size
    → l.size < length l.values
    → (l' : IntArrayList) × (push l v ≡ ok l') × (contents l' ≡ contents l ++ v ∷ [])
unfolding push
push-contents l v h k = (
  record l { size = l.size + 1; values = set l.values l.size v },
  ground arith,
  take-set l.values l.size (l.size + 1) v k (omega arith),
)

take-take_append :
    (n m : ℕ) (xs ys : List ℤ) → n ≤ m → m ≤ length xs → take n (take m xs ++ ys) ≡ take n xs
take-take_append zero m xs ys h k = refl
take-take_append (suc n) zero xs ys h k = absurd (omega arith)
take-take_append (suc n) (suc m) [] ys h k = absurd (omega arith)
take-take_append (suc n) (suc m) (x ∷ xs) ys h k =
    ap (λ t. x ∷ t) (take-take_append n m xs ys (omega arith) (omega arith))

-- `pop` takes the first number off, if the array is long enough for the bytes that are copied: those
-- of a whole struct for each number that is left.
pub pop-contents :
    (l : IntArrayList) (n : ℕ) (v : ℤ) (rest : List ℤ)
    → l.size ≡ suc n
    → l.values ≡ v ∷ rest
    → 12 * n ≤ length rest
    → (l' : IntArrayList) × (pop l ≡ ok (l', v)) × (contents l ≡ v ∷ contents l')
unfolding pop shift
pop-contents l n v rest e f h = (
  record l { size = n; values = take (12 * n) rest ++ drop (12 * n) (v ∷ rest) },
  rw (f, e, pop) (ground arith),
  rw (e, f)
      (ap (λ t. v ∷ t)
        (sym (take-take_append n (12 * n) rest (drop (12 * n) (v ∷ rest)) (omega arith) h))),
)

-- Otherwise it reads past the end of the array.
pub pop-overrun :
    (l : IntArrayList) (n : ℕ) (v : ℤ) (rest : List ℤ)
    → l.size ≡ suc n
    → l.values ≡ v ∷ rest
    → length rest < 12 * n
    → pop l ≡ fault out_of_bounds
unfolding pop shift
pop-overrun l n v rest e f h = rw (f, e, pop) (ground arith)
