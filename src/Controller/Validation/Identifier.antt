-- ===== src/Controller/Validation/Identifier.antt =====
-- controller/cliente_controller.c: the identifier of a client, from the URL to the number.
use crinha.Prelude.{
  ℕ, zero, suc, ◌^◌, ◌<◌, ◌≡◌, refl, ap, ◌∙◌, ◌&&◌, true, List, [], ◌∷◌, length, arith, ltb,
  Bool-cases, inl, inr, ok,
}
use crinha.Prelude.Int.{pos, to_bits}
use crinha.Clib.Memory.{strlen, isdigit, IsText}
use crinha.Clib.Memory.Copy.{c_str-text}
use crinha.Clib.Decimal.{decimal, decimal_ℤ, atoi}
use crinha.Clib.Decimal.RoundTrip.{
  AllDigits, AllDigits-IsText, decimal-AllDigits, decimal-length, decimal-cons, atoi-decimal_ℤ,
}
use crinha.Controller.Validation.{digits_only, is_id_cliente_valido}
use crinha.Controller.Url.{extract_url_param}
use crinha.Controller.Url.Param.{Suffix, url_of, extract_url_param_digits}

digits_only-AllDigits : (p : List ℕ) → AllDigits p → digits_only p ≡ true
unfolding digits_only
digits_only-AllDigits [] h = refl
digits_only-AllDigits (zero ∷ p) h = refl
digits_only-AllDigits (suc c ∷ p) h = rw (h.0, digits_only) (digits_only-AllDigits p h.1)

AllDigits-digits_only : (p : List ℕ) → IsText p → digits_only p ≡ true → AllDigits p
unfolding digits_only
AllDigits-digits_only [] t h = tt
AllDigits-digits_only (zero ∷ p) t h = absurd (omega (arith, t))
AllDigits-digits_only (suc c ∷ p) t h = elim (Bool-cases (isdigit (suc c))) [
  | inl d ↦ (d, AllDigits-digits_only p t.1 (rw (d, digits_only) at h))
  | inr d ↦ absurd (cc (rw (d, digits_only) at h))
]

-- A string of digits is a valid identifier if there are one to nine of them.
pub is_id_cliente_valido-digits :
    (p : List ℕ) → AllDigits p → is_id_cliente_valido p ≡ (ltb 0 (length p) && ltb (length p) 10)
unfolding is_id_cliente_valido
is_id_cliente_valido-digits p h =
    let same : strlen p ≡ length p = ap length (c_str-text p (AllDigits-IsText p h)) in
    ground (arith, same, digits_only-AllDigits p h)

-- For a client's number below 10^9, the parameter that the handlers take from a URL that their routes
-- match is the number in decimal; it is valid, and read as the number.
pub extract_id :
    (n : ℕ) (t : Suffix)
    → n < 10 ^ 9
    → (extract_url_param (url_of (decimal n) t) ≡ ok (decimal n))
      × (is_id_cliente_valido (decimal n) ≡ true)
      × (to_bits (2 ^ 31) (atoi (decimal n)) ≡ n)
unfolding decimal_ℤ
extract_id n t h =
    let (c, cs, e, d, v) = decimal-cons n in
    let short = decimal-length n 8 h in
    let some_digit : 0 < length (decimal n) = omega (arith, ap length e) in
    (
      extract_url_param_digits (decimal n) t (decimal-AllDigits n) ∙ ground arith,
      is_id_cliente_valido-digits (decimal n) (decimal-AllDigits n) ∙ ground arith,
      ap (to_bits (2 ^ 31)) (atoi-decimal_ℤ (pos n) (omega arith)) ∙ ground arith,
    )
