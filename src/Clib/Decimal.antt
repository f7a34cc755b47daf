-- ===== src/Clib/Decimal.antt =====
-- Decimal numbers: `%d` and `%ld` of printf, `atoi` and `atol`.
pub mod RoundTrip
use crinha.Prelude.{
  ℕ, zero, suc, ◌+◌, ◌-◌, ◌*◌, ◌/◌, ◌%◌, ◌^◌, ◌||◌, ◌&&◌, Bool, true, false, List, [], ◌∷◌, ◌++◌,
  leb, ltb, ◌==◌, if◌then◌else◌,
}
use crinha.Prelude.Int.{ℤ, pos, negsuc, neg_ℤ, wrap32}
use crinha.Clib.Memory.{isdigit}

-- The digits of `n`, if the fuel is at least the number of them.
unfoldable pub digits : ℕ → ℕ → List ℕ
digits zero n = []
digits (suc fuel) n =
    let rest = digits fuel (n / 10) ++ (b'0' + n % 10) ∷ [] in
    if ltb n 10 then (b'0' + n) ∷ [] else rest

unfoldable pub decimal : ℕ → List ℕ
unfolding digits
decimal n = digits (suc n) n

unfoldable pub decimal_ℤ : ℤ → List ℕ
unfolding decimal
decimal_ℤ (pos n) = decimal n
decimal_ℤ (negsuc n) = b'-' ∷ decimal (suc n)

abbrev pub isspace : ℕ → Bool
isspace c = (c == b' ') || (leb 9 c && leb c 13)

-- The value of the digits at the front, added to those read before.
unfoldable pub digits_value : ℕ → List ℕ → ℕ
digits_value acc [] = acc
digits_value acc (c ∷ cs) = elim (isdigit c) [
  | true ↦ digits_value (acc * 10 + (c - b'0')) cs
  | false ↦ acc
]

-- `strtol` saturates.
abbrev clamp_pos : ℕ → ℤ
clamp_pos n = if ltb n (2 ^ 63) then pos n else pos (2 ^ 63 - 1)

abbrev clamp_neg : ℕ → ℤ
clamp_neg n = if leb n (2 ^ 63) then neg_ℤ (pos n) else negsuc (2 ^ 63 - 1)

unfoldable pub signed_value : List ℕ → ℤ
unfolding digits_value neg_ℤ
signed_value [] = pos 0
signed_value (c ∷ cs) =
    if c == b'-'
    then clamp_neg (digits_value 0 cs)
    else if c == b'+'
    then clamp_pos (digits_value 0 cs)
    else clamp_pos (digits_value 0 (c ∷ cs))

unfoldable pub atol : List ℕ → ℤ
unfolding signed_value
atol [] = pos 0
atol (c ∷ cs) = elim (isspace c) [ true ↦ atol cs | false ↦ signed_value (c ∷ cs) ]

-- `atoi` keeps the low 32 bits of what `strtol` returns.
unfoldable pub atoi : List ℕ → ℤ
unfolding atol wrap32
atoi s = wrap32 (atol s)
