-- ===== src/Server/Startup.antt =====
-- server/server.c: creating the socket, the loop until a signal, and `server_init`.
pub mod Serving
pub mod Failure
use crinha.Prelude.{
  ℕ, ◌+◌, Bool, true, false, Option, none, some, List, [], ◌∷◌, Exec, ok, fault, exit_failure,
  out_of_fuel, if◌then◌else◌,
}
use crinha.Router.{Routes}
use crinha.HttpParser.Llhttp.{Llhttp}
use crinha.HttpParser.Parser.{HttpParser, http_parser_init}
use crinha.HttpParser.Lifetime.{http_parser_close, with_settings}
use crinha.Server.Poll.{PollFd, PollTable}
use crinha.Server.SocketRead.{Service}
use crinha.Server.Loop.{Server, poll_round, listening}
use crinha.Server.System.{
  SocketOption, so_reuseaddr, so_reuseport, sigterm, sigint, signal, socket, setsockopt, bind,
  listen, shutdown, Answers, Sys, ◌>>=◌, ◌>>◌, done, stop, call, run, give_up,
}

abbrev pub socket_max_queued : ℕ
socket_max_queued = 96

-- `shoud_terminate` after the handler.
abbrev pub handle_signal : Bool → Bool
handle_signal shoud_terminate = true

module _ (os : Answers) where
  unfoldable pub server_set_sock_opt : ℕ → SocketOption → Sys (Unit {0})
  server_set_sock_opt sock_handle opt_name = do
    call (setsockopt sock_handle opt_name)
    if os.sets opt_name then done tt else give_up sock_handle

  unfoldable pub socket_create : Sys ℕ
  unfolding server_set_sock_opt
  socket_create = do
    call socket
    elim os.descriptor [
      | none ↦ stop exit_failure
      | some sock_handle ↦ (do
        server_set_sock_opt sock_handle so_reuseaddr
        server_set_sock_opt sock_handle so_reuseport
        done sock_handle)
    ]

  -- The address is that of all interfaces, with the port.
  unfoldable pub socket_listen : ℕ → ℕ → Sys (Unit {0})
  socket_listen sock_handle port = do
    call (bind sock_handle port)
    if os.binds
        then (do
          call (listen sock_handle socket_max_queued)
          if os.listens then done tt else give_up sock_handle)
        else give_up sock_handle

-- One turn of the `while` loop: whether `poll` reports events, the events, what each socket has to
-- read, and whether a signal comes before the next test of `shoud_terminate`.
pub record Turn : Type 0 where
  pub is_ready : Bool
  pub revents : List ℕ
  pub input : ℕ → List (List ℕ)
  pub is_signalled : Bool

module _ (ll : Llhttp) {S : Type 0} (routes : Routes S) where
  -- The body of the loop: `continue` if nothing is reported.
  unfoldable pub turn : Turn → Server ll S → Exec (Server ll S)
  turn t s = if t.is_ready then poll_round ll routes t.revents t.input s else ok s

  -- The loop, with the turns that the system has for it. No signal comes between `signal` and the first
  -- test.
  unfoldable pub loop_until : Bool → List Turn → Server ll S → Exec (Server ll S)
  loop_until true turns s = ok s
  loop_until false [] s = fault out_of_fuel
  loop_until false (t ∷ turns) s = elim (turn t s) [
    | fault e ↦ fault e
    | ok s' ↦ loop_until (if t.is_signalled then handle_signal false else false) turns s'
  ]

  -- `pfds` is an array of the stack, with what was there.
  unfoldable pub socket_loop :
      ℕ → List PollFd → Service ll S → List (Option ℕ) → List Turn → Exec (Server ll S)
  unfolding loop_until
  socket_loop sock_handle pfds service accepts turns = loop_until false turns (record {
    table = listening sock_handle pfds;
    service = service;
    closed = [];
    accepts = accepts;
  })

  -- The whole life of the server, with the state of the handlers; `live` blocks are handed out
  -- before, and three more once the parser is created.
  unfoldable pub server_init :
      Answers → ℕ → S → List PollFd → List (Option ℕ) → List Turn → ℕ → Sys (Server ll S × ℕ)
  unfolding socket_create socket_listen socket_loop
  server_init os port app pfds accepts turns live = do
    call (signal sigterm)
    call (signal sigint)
    sock_handle ← socket_create os
    socket_listen os sock_handle port
    parser ← run (http_parser_init ll)
    s ← run (
        socket_loop sock_handle pfds (record { parser = parser; app = app; sent = [] }) accepts
          turns)
    live' ← run (http_parser_close ll (with_settings ll s.service.parser) (live + 3))
    call (shutdown sock_handle)
    done (s, live')
