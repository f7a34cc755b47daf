-- ===== src/Server/Poll.antt =====
-- server/server.c: the table of polled sockets. A descriptor of -1 is `none`.
pub mod Descriptors
pub mod Table
use crinha.Prelude.{
  ℕ, zero, suc, ◌+◌, ◌-◌, ◌==◌, leb, if◌then◌else◌, Bool, true, false, Option, none, some, List, [],
  ◌∷◌,
}

abbrev pub socket_max_poll : ℕ
socket_max_poll = 16

abbrev pub pollin : ℕ
pollin = 1

pub record PollFd : Type 0 where
  pub fd : Option ℕ
  pub events : ℕ
  pub revents : ℕ

-- The array and `nfds`.
pub record PollTable : Type 0 where
  pub pfds : List PollFd
  pub nfds : ℕ

unfoldable pub poll_init : List PollFd → List PollFd
poll_init [] = []
poll_init (p ∷ ps) = record p { fd = none; events = pollin } ∷ poll_init ps

-- The loop that looks for a free entry, and the assignments to it; `none` if it finds none.
unfoldable pub fill_free : ℕ → List PollFd → Option (List PollFd)
fill_free fd [] = none
fill_free fd (p ∷ ps) = elim p.fd [
  | none ↦ some (record p { fd = some fd; revents = 0 } ∷ ps)
  | some _ ↦ elim (fill_free fd ps) [ none ↦ none | some ps' ↦ some (p ∷ ps') ]
]

unfoldable pub poll_push : PollTable → ℕ → PollTable
unfolding fill_free
poll_push t fd =
    if leb socket_max_poll t.nfds
    then t
    else elim (fill_free fd t.pfds) [ none ↦ t | some ps ↦ record { pfds = ps; nfds = t.nfds + 1 } ]

abbrev pub same_fd : Option ℕ → Option ℕ → Bool
same_fd none none = true
same_fd (some a) (some b) = a == b
same_fd none (some b) = false
same_fd (some a) none = false

unfoldable pub clear_fd : Option ℕ → List PollFd → Option (List PollFd)
clear_fd fd [] = none
clear_fd fd (p ∷ ps) =
    let rest = clear_fd fd ps in
    if same_fd p.fd fd
    then some (record p { fd = none } ∷ ps)
    else elim rest [ none ↦ none | some ps' ↦ some (p ∷ ps') ]

-- A count of 0, which the table never has, would wrap in C.
unfoldable pub poll_pop : PollTable → Option ℕ → PollTable
unfolding clear_fd
poll_pop t fd = elim (clear_fd fd t.pfds) [
  | none ↦ t
  | some ps ↦ record { pfds = ps; nfds = t.nfds - 1 }
]
