-- ===== src/Clib/Memory.antt =====
-- <string.h> and <ctype.h> on byte lists. A buffer is the list of all its bytes; a string argument
-- is the list of the bytes before its terminator.
pub mod Copy
use crinha.Prelude.{
  ℕ, zero, suc, ◌-◌, ◌+◌, ◌≤◌, ◌≡◌, refl, Bool, true, false, ◌&&◌, List, [], ◌∷◌, ◌++◌, length,
  take, arith, leb, ltb, if◌then◌else◌, ◌==◌, Exec, ok, fault, out_of_bounds, ◌>>=◌,
}

-- The bytes before the first NUL.
abbrev pub c_str : List ℕ → List ℕ
c_str [] = []
c_str (zero ∷ bs) = []
c_str (suc b ∷ bs) = suc b ∷ c_str bs

abbrev pub strlen : List ℕ → ℕ
strlen s = length (c_str s)

-- Writing past the end of the buffer is a fault.
unfoldable pub overwrite : List ℕ → List ℕ → Exec (List ℕ)
overwrite bs [] = ok bs
overwrite [] (x ∷ xs) = fault out_of_bounds
overwrite (b ∷ bs) (x ∷ xs) = overwrite bs xs >>= λ rest. ok (x ∷ rest)

unfoldable pub write_at : List ℕ → ℕ → List ℕ → Exec (List ℕ)
unfolding overwrite
write_at bs zero xs = overwrite bs xs
write_at [] (suc n) [] = ok []
write_at [] (suc n) (x ∷ xs) = fault out_of_bounds
write_at (b ∷ bs) (suc n) xs = write_at bs n xs >>= λ rest. ok (b ∷ rest)

-- The `n` bytes that `strncpy(_, s, n)` writes: the string, cut or padded with NULs.
abbrev pub strncpy_bytes : List ℕ → ℕ → List ℕ
strncpy_bytes s zero = []
strncpy_bytes [] (suc n) = 0 ∷ strncpy_bytes [] n
strncpy_bytes (zero ∷ s) (suc n) = 0 ∷ strncpy_bytes [] n
strncpy_bytes (suc c ∷ s) (suc n) = suc c ∷ strncpy_bytes s n

-- What the buffer holds as a string after `sprintf(buffer, "%s", text)`: the text and its NUL must
-- fit.
unfoldable pub sprintf : ℕ → List ℕ → Exec (List ℕ)
sprintf cap text = if ltb (length text) cap then ok text else fault out_of_bounds

abbrev pub isdigit : ℕ → Bool
isdigit c = leb b'0' c && leb c b'9'

-- In the C locale.
unfoldable pub tolower : ℕ → ℕ
tolower c = if leb b'A' c && leb c b'Z' then c + 32 else c

-- No byte is NUL.
abbrev pub IsText : List ℕ → Type 0
IsText [] = Unit {0}
IsText (b ∷ bs) = (1 ≤ b) × IsText bs
