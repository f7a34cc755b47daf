-- ===== src/Db/State.antt =====
-- The state that the server's functions share: `pool` of util/db_connection.c, the world outside,
-- and the number of blocks that `malloc` has handed out and `free` has not taken back.
use crinha.Prelude.{
  ℕ, ◌+◌, ◌-◌, Option, ltb, if◌then◌else◌, ◌≡◌, ap, arith, Exec, ok, fault, out_of_bounds, Fault,
}
use crinha.Db.Libpq.{Libpq}

pub record Db (pq : Libpq) : Type 0 where
  pub pool : Option pq.Conn
  pub world : pq.World
  pub live : ℕ

-- A computation on a state that may fault.
abbrev pub M : Type 0 → Type 0 → Type 0
M S A = S → Exec (A × S)

-- What runs on the outcome of a part.
abbrev pub go_on : {S A B : Type 0} → (A → M S B) → Exec (A × S) → Exec (B × S)
go_on f (ok (a, s)) = f a s
go_on f (fault e) = fault e

infixl 5 ◌>>=◌ ◌>>◌
abbrev pub ◌>>=◌ : {S A B : Type 0} → M S A → (A → M S B) → M S B
◌>>=◌ m f s = go_on f (m s)

-- One step of a computation whose first part succeeds.
pub bind_ok :
    {S A B : Type 0} (m : M S A) (f : A → M S B) (s s' : S) (a : A)
    → m s ≡ ok (a, s')
    → go_on f (m s) ≡ f a s'
bind_ok m f s s' a e = ap (go_on f) e

-- One whose first part faults.
pub bind_fault :
    {S A B : Type 0} (m : M S A) (f : A → M S B) (s : S) (e : Fault)
    → m s ≡ fault e
    → go_on f (m s) ≡ fault e
bind_fault m f s e h = ap (go_on f) h

abbrev pub ◌>>◌ : {S B : Type 0} → M S (Unit {0}) → M S B → M S B
m >> k = m >>= λ _. k

abbrev pub pure : {S A : Type 0} → A → M S A
pure a s = ok (a, s)

abbrev pub raise : {S A : Type 0} → Fault → M S A
raise e s = fault e

abbrev pub lift : {S A : Type 0} → Exec A → M S A
lift (ok a) s = ok (a, s)
lift (fault e) s = fault e

module _ {pq : Libpq} where
  -- `n` calls of `malloc`; they do not fail.
  abbrev pub alloc : ℕ → M (Db pq) (Unit {0})
  alloc n d = ok (tt, record d { live = d.live + n })

  -- `n` calls of `free` on blocks that are handed out.
  unfoldable pub release : ℕ → M (Db pq) (Unit {0})
  release n d =
      if ltb d.live n then fault out_of_bounds else ok (tt, record d { live = d.live - n })

  abbrev pub grown : Db pq → ℕ → Db pq
  grown d n = record d { live = d.live + n }

  -- Blocks that have been handed out can be taken back.
  pub release-grown :
      (d : Db pq) (m n k : ℕ) → m ≡ n + k → release n (grown d m) ≡ ok (tt, grown d k)
  unfolding release
  release-grown d m n k e = ground arith

  pub grown-zero : (d : Db pq) → grown d 0 ≡ d
  grown-zero d = ground arith

  abbrev pub touch : (pq.World → pq.World) → M (Db pq) (Unit {0})
  touch f d = ok (tt, record d { world = f d.world })
