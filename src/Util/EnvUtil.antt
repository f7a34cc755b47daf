-- ===== src/Util/EnvUtil.antt =====
-- util/env_util.c: the environment, and the difference of two times and its printing.
pub mod Elapsed
use crinha.Prelude.{
  ℕ, suc, ◌*◌, ◌+◌, ◌/◌, ◌%◌, ◌||◌, Bool, true, false, ltb, leb, if◌then◌else◌, Option, none, some,
  List, ◌∷◌, [], ◌++◌, length, codes, joined, replicate, ◌-◌,
}
use crinha.Clib.Decimal.{decimal_ℤ}
use crinha.Prelude.Int.{ℤ, pos, negsuc, ◌-ℤ◌, ◌+ℤ◌, ◌*ℤ◌, ltb_ℤ, neg_ℤ}

-- `getenv`; a missing variable is logged, and NULL is returned.
abbrev pub env_util_get : (List ℕ → Option (List ℕ)) → List ℕ → Option (List ℕ)
env_util_get getenv name = getenv name

pub record Timeval : Type 0 where
  pub tv_sec : ℤ
  pub tv_usec : ℤ

-- Division in C cuts towards zero.
unfoldable pub div_million : ℤ → ℤ
unfolding neg_ℤ
div_million (pos n) = pos (n / 1000000)
div_million (negsuc n) = neg_ℤ (pos (suc n / 1000000))

unfoldable pub mod_million : ℤ → ℤ
unfolding neg_ℤ
mod_million (pos n) = pos (n % 1000000)
mod_million (negsuc n) = neg_ℤ (pos (suc n % 1000000))

abbrev pub micro_seconds : Timeval → ℤ
micro_seconds t = t.tv_usec +ℤ pos 1000000 *ℤ t.tv_sec

-- The times are in range: no operation leaves int64_t.
unfoldable pub timeval_subtract : Timeval → Timeval → Timeval × Bool
timeval_subtract t2 t1 =
    let diff = micro_seconds t2 -ℤ micro_seconds t1 in
    (record { tv_sec = div_million diff; tv_usec = mod_million diff }, ltb_ℤ diff (pos 0))

-- The condition of `timeval_print_elapsed_if_greater`.
unfoldable pub is_elapsed_greater : Timeval → Timeval → ℤ → ℤ → Bool
is_elapsed_greater begin end seconds micro =
    let (diff, _) = timeval_subtract end begin in
    ltb_ℤ seconds diff.tv_sec || ltb_ℤ micro diff.tv_usec

-- `%06ld`: the sign is one of the six characters.
unfoldable pub six_wide : ℤ → List ℕ
unfolding decimal_ℤ
six_wide (pos n) = replicate (6 - length (decimal_ℤ (pos n))) b'0' ++ decimal_ℤ (pos n)
six_wide (negsuc n) =
    b'-' ∷ replicate (5 - length (decimal_ℤ (pos (suc n)))) b'0' ++ decimal_ℤ (pos (suc n))

-- What is printed; `local_date` is `strftime` of the local time, by `%m-%d-%Y  %T`.
unfoldable pub timeval_print : (ℤ → List ℕ) → Timeval → List ℕ
unfolding six_wide decimal_ℤ
timeval_print local_date tv = joined (
    decimal_ℤ tv.tv_sec
    ∷ codes "."
    ∷ six_wide tv.tv_usec
    ∷ codes " = "
    ∷ local_date tv.tv_sec
    ∷ codes "."
    ∷ six_wide tv.tv_usec
    ∷ (10 ∷ [])
    ∷ [])

-- What `timeval_print_elapsed_if_greater` logs, if it does.
unfoldable pub timeval_print_elapsed_if_greater :
    Timeval → Timeval → ℤ → ℤ → List ℕ → Option (List ℕ)
unfolding timeval_subtract is_elapsed_greater six_wide decimal_ℤ
timeval_print_elapsed_if_greater begin end seconds micro suffix =
    let (diff, _) = timeval_subtract end begin in
    if is_elapsed_greater begin end seconds micro
    then some (
        joined (
          codes "Elapsed: "
          ∷ decimal_ℤ diff.tv_sec
          ∷ codes "."
          ∷ six_wide diff.tv_usec
          ∷ codes " : "
          ∷ suffix
          ∷ []))
    else none
