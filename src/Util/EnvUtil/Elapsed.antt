-- ===== src/Util/EnvUtil/Elapsed.antt =====
-- util/env_util.c: the difference is exact, and the condition on elapsed times is not the one that its
-- name says.
use crinha.Prelude.{◌≡◌, refl, true, arith}
use crinha.Prelude.Int.{ℤ, pos, negsuc, ◌-ℤ◌, ◌+ℤ◌, ◌*ℤ◌, neg_ℤ}
use crinha.Util.EnvUtil.{
  Timeval, micro_seconds, timeval_subtract, div_million, mod_million, is_elapsed_greater,
}

million-div_mod : (z : ℤ) → mod_million z +ℤ pos 1000000 *ℤ div_million z ≡ z
unfolding mod_million div_million neg_ℤ ◌+ℤ◌ ◌*ℤ◌
million-div_mod (pos n) = ground arith
million-div_mod (negsuc n) = ground arith

-- The difference in seconds and microseconds is the difference of the times.
pub timeval_subtract-exact :
    (t2 t1 : Timeval)
    → micro_seconds (timeval_subtract t2 t1).0 ≡ micro_seconds t2 -ℤ micro_seconds t1
unfolding timeval_subtract
timeval_subtract-exact t2 t1 = million-div_mod (micro_seconds t2 -ℤ micro_seconds t1)

-- 1.9 s are reported as more than 2.5 s.
pub elapsed_early :
    is_elapsed_greater
      (record { tv_sec = pos 0; tv_usec = pos 0 })
      (record { tv_sec = pos 1; tv_usec = pos 900000 })
      (pos 2)
      (pos 500000)
    ≡ true
unfolding is_elapsed_greater timeval_subtract div_million mod_million ◌-ℤ◌ ◌+ℤ◌ ◌*ℤ◌
elapsed_early = refl
