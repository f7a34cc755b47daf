-- ===== src/Prelude.antt =====
-- The names that the other modules share: the library's, tests and conditionals, lists measured by
-- native numbers, and C computations that may fault.
pub mod Names
mod Tests
mod Lists
mod Faults
mod Text
pub mod Int
pub use Names.{
  ℕ, zero, suc, ◌+◌, ◌-◌, ◌*◌, ◌/◌, ◌%◌, ◌^◌, ◌≤◌, ◌<◌, min, ◌≡◌, refl, sym, ap, ◌∙◌, subst, ◌≢◌,
  ◌↔◌, ◌⊎◌, inl, inr, Bool, true, false, not, ◌&&◌, ◌||◌, Option, none, some, List, [], ◌∷◌, ◌++◌,
  map, append_assoc, append-nil, arith,
}
pub use Tests.*
pub use Lists.*
pub use Faults.*
pub use Text.*
unfoldable pub use native.Mathlib.Decide.{dec_lt, ℕ_discrete}
