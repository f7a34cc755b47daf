-- ===== src/Server/Loop.antt =====
-- server/server.c: `socket_loop`. What the system answers is an input: the events that `poll`
-- reports, the descriptors that `accept` returns, and the bytes that each socket has to read.
pub mod Invariant
pub mod Rounds
use Prim.Native.Nat.{bit_and}
use crinha.Prelude.{
  ℕ, zero, suc, ◌+◌, ◌==◌, leb, not, if◌then◌else◌, Bool, true, false, Option, none, some, List, [],
  ◌∷◌, replicate, get_elem?, Exec, ok, fault, out_of_bounds, ◌>>=◌,
}
use crinha.Router.{Routes}
use crinha.HttpParser.Llhttp.{Llhttp}
use crinha.Server.Poll.{PollFd, PollTable, poll_init, poll_push, poll_pop, socket_max_poll, pollin}
use crinha.Server.SocketRead.{Service, socket_read}

-- The table, the service, the descriptors that were closed, the last one first, and the outcomes of
-- the calls of `accept` that are still to come (`none` is a failure).
pub record Server (ll : Llhttp) (S : Type 0) : Type 0 where
  pub table : PollTable
  pub service : Service ll S
  pub closed : List (Option ℕ)
  pub accepts : List (Option ℕ)

-- `poll` writes `revents` of each entry.
unfoldable pub set_revents : List ℕ → List PollFd → List PollFd
set_revents (r ∷ rs) (p ∷ ps) = record p { revents = r } ∷ set_revents rs ps
set_revents rs ps = ps

-- IS_SERVER_SCK and IS_POLL_FULL
abbrev pub is_server_sck : ℕ → Bool
is_server_sck i = i == 0

abbrev pub is_poll_full : ℕ → Bool
is_poll_full s = leb socket_max_poll s

abbrev pub has_input : ℕ → Bool
has_input revents = not (bit_and revents pollin == 0)

module _ (ll : Llhttp) {S : Type 0} where
  -- `accept` and, if it succeeds, `poll_push`; the list is that of the outcomes to come.
  abbrev pub take_outcome : Server ll S → List (Option ℕ) → Server ll S
  take_outcome s [] = s
  take_outcome s (none ∷ rest) = record s { accepts = rest }
  take_outcome s (some fd ∷ rest) = record s { accepts = rest; table = poll_push s.table fd }

  unfoldable pub take_connection : Server ll S → Server ll S
  take_connection s = take_outcome s s.accepts

  -- `shutdown`, `close`, `poll_pop`.
  unfoldable pub drop_connection : Option ℕ → Server ll S → Server ll S
  drop_connection fd s = record s { table = poll_pop s.table fd; closed = fd ∷ s.closed }

module _ (ll : Llhttp) {S : Type 0} (routes : Routes S) where
  -- The body of the `for` loop at index `i`; `chunks` is what the socket has to read.
  unfoldable pub visit : ℕ → List (List ℕ) → Server ll S → Exec (Server ll S)
  visit i chunks s = elim (get_elem? s.table.pfds i) [
    | none ↦ fault out_of_bounds
    | some p ↦
        if p.revents == 0
        then ok s
        else if has_input p.revents
        then (if is_server_sck i
            then (if is_poll_full s.table.nfds then ok s else ok (take_connection ll s))
            else (elim (socket_read ll routes chunks s.service) [
              | fault e ↦ fault e
              | ok service ↦ ok (drop_connection ll p.fd (record s { service = service }))
            ]))
        else (if is_server_sck i then ok s else ok (drop_connection ll p.fd s))
  ]

  -- The indices from `i` on, `n` of them.
  unfoldable pub visit_all : ℕ → ℕ → (ℕ → List (List ℕ)) → Server ll S → Exec (Server ll S)
  visit_all zero i input s = ok s
  visit_all (suc n) i input s = visit i (input i) s >>= visit_all n (suc i) input

  -- One round of the `while` loop after a `poll` that reported events.
  unfoldable pub poll_round : List ℕ → (ℕ → List (List ℕ)) → Server ll S → Exec (Server ll S)
  poll_round revents input s =
      visit_all socket_max_poll 0 input
        (record s { table = record (s.table) { pfds = set_revents revents s.table.pfds } })

-- The table before the loop: the server's socket alone.
unfoldable pub listening : ℕ → List PollFd → PollTable
listening sock_handle raw = poll_push (record { pfds = poll_init raw; nfds = 0 }) sock_handle
