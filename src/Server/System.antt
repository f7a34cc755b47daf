-- ===== src/Server/System.antt =====
-- The calls of the system that server/server.c makes to set up its socket. What they answer is an
-- input, and each call is recorded, also where the process exits after it.
use crinha.Prelude.{ℕ, Bool, Option, List, ◌∷◌, Exec, ok, fault, Fault, exit_failure}

pub data SocketOption : Type 0 where
  so_reuseaddr so_reuseport : SocketOption

pub data Signal : Type 0 where
  sigterm sigint : Signal

pub data Call : Type 0 where
  signal : Signal → Call
  socket : Call
  setsockopt : ℕ → SocketOption → Call
  bind : ℕ → ℕ → Call
  listen : ℕ → ℕ → Call
  shutdown : ℕ → Call

-- The answers: the descriptor of `socket`, if there is one, and whether the other calls succeed.
pub record Answers : Type 0 where
  pub descriptor : Option ℕ
  pub sets : SocketOption → Bool
  pub binds : Bool
  pub listens : Bool

-- A computation that records its calls, the last one first.
abbrev pub Sys : Type 0 → Type 0
Sys A = List Call → Exec A × List Call

abbrev pub proceed : {A B : Type 0} → (A → Sys B) → Exec A × List Call → Exec B × List Call
proceed k (ok a, calls) = k a calls
proceed k (fault e, calls) = (fault e, calls)

infixl 5 ◌>>=◌ ◌>>◌
abbrev pub ◌>>=◌ : {A B : Type 0} → Sys A → (A → Sys B) → Sys B
◌>>=◌ m k calls = proceed k (m calls)

abbrev pub ◌>>◌ : {A B : Type 0} → Sys A → Sys B → Sys B
m >> k = m >>= λ _. k

abbrev pub done : {A : Type 0} → A → Sys A
done a calls = (ok a, calls)

abbrev pub stop : {A : Type 0} → Fault → Sys A
stop e calls = (fault e, calls)

abbrev pub call : Call → Sys (Unit {0})
call c calls = (ok tt, c ∷ calls)

-- A computation without calls.
abbrev pub run : {A : Type 0} → Exec A → Sys A
run m calls = (m, calls)

-- `exit(EXIT_FAILURE)` after a `shutdown`.
abbrev pub give_up : {A : Type 0} → ℕ → Sys A
give_up fd = call (shutdown fd) >> stop exit_failure
