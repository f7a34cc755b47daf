-- ===== src/HttpParser/Llhttp.antt =====
-- The functions of llhttp that server/http_parser.c calls. The library is a parameter of the model.
use crinha.Library.Llhttp.Errno.{LlhttpErrno, errno_value}
use crinha.Prelude.{ℕ, Bool, List}

-- The callbacks that are set, with the bytes that they are given.
pub data Event : Type 0 where
  on_url : List ℕ → Event
  on_body : List ℕ → Event
  on_message_complete : Event

-- What `llhttp_execute` does: it calls back, and goes on as the callback's result says; at last it
-- returns, with the parser it leaves.
pub data Run (P : Type 0) : Type 0 where
  returns : P → ℕ → Run P
  calls : Event → (ℕ → Run P) → Run P

pub record Llhttp : Type 1 where
  pub P : Type 0
  pub execute : P → List ℕ → Run P
  pub get_errno : P → ℕ
  pub resume : P → P
  pub resume_after_upgrade : P → P
  pub finish : P → Run P
  pub reset : P → P
  pub method : P → ℕ
  -- `_current` holds the number of the closed state.
  pub is_closed : P → Bool
  -- What `llhttp_init` leaves.
  pub start : P

-- The values of llhttp_errno_t that the server looks at.
abbrev pub hpe_ok : ℕ
hpe_ok = errno_value LlhttpErrno.hpe_ok

abbrev pub hpe_paused : ℕ
hpe_paused = errno_value LlhttpErrno.hpe_paused

abbrev pub hpe_paused_upgrade : ℕ
hpe_paused_upgrade = errno_value LlhttpErrno.hpe_paused_upgrade
