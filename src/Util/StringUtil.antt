-- ===== src/Util/StringUtil.antt =====
-- util/string_util.c
pub mod Copy
pub mod Utf8
use Prim.Native.Nat.{bit_and}
use crinha.Prelude.{
  ℕ, zero, suc, ◌+◌, Bool, not, List, [], ◌∷◌, ◌==◌, if◌then◌else◌, Exec, ok, fault, out_of_bounds,
  ◌>>=◌,
}
use crinha.Clib.Memory.{tolower, write_at, strncpy_bytes}

-- The string ends at its NUL; a buffer without one is read past its end.
pub string_util_tolower : List ℕ → Exec (List ℕ)
unfolding tolower
string_util_tolower [] = fault out_of_bounds
string_util_tolower (zero ∷ bs) = ok (zero ∷ bs)
string_util_tolower (suc b ∷ bs) = string_util_tolower bs >>= λ rest. ok (tolower (suc b) ∷ rest)

-- `strzcpy(&dest[offset], ori, size)`: `size` bytes by `strncpy`, and a NUL behind them.
unfoldable pub strzcpy : List ℕ → ℕ → List ℕ → ℕ → Exec (List ℕ)
strzcpy dest offset ori size = do
  copied ← write_at dest offset (strncpy_bytes ori size)
  write_at copied (offset + size) (0 ∷ [])

-- A byte that continues a code point.
unfoldable pub is_continuation : ℕ → Bool
is_continuation b = bit_and b 0xc0 == 0x80

unfoldable pub string_util_utf8_strlen : List ℕ → ℕ
string_util_utf8_strlen [] = 0
string_util_utf8_strlen (zero ∷ bs) = 0
string_util_utf8_strlen (suc b ∷ bs) =
    let rest = string_util_utf8_strlen bs in
    if not (is_continuation (suc b)) then rest + 1 else rest
