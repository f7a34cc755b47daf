-- ===== src/Server/Startup/Failure.antt =====
-- server/server.c: a socket that cannot be set up.
use crinha.Prelude.{
  ℕ, ◌≡◌, refl, ◌&&◌, true, false, Bool-cases, inl, inr, Option, none, some, List, ◌∷◌, Exec, fault,
  exit_failure, arith, Bool,
}
use crinha.Router.{Routes}
use crinha.HttpParser.Llhttp.{Llhttp}
use crinha.Server.Poll.{PollFd}
use crinha.Server.Loop.{Server}
use crinha.Server.System.{
  Answers, Call, signal, sigterm, sigint, socket, setsockopt, bind, listen, so_reuseaddr,
  so_reuseport, shutdown,
}
use crinha.Server.Startup.{Turn, socket_create, socket_listen, server_set_sock_opt, server_init}

module _ (ll : Llhttp) {S : Type 0} (routes : Routes S) (os : Answers) (port : ℕ) (app : S)
    (pfds : List PollFd) (accepts : List (Option ℕ)) (turns : List Turn) (live : ℕ)
    (calls : List Call) where
  abbrev pub whole_run : Exec (Server ll S × ℕ) × List Call
  whole_run = server_init ll routes os port app pfds accepts turns live calls

  all_true :
      (a b c d : Bool) → (a && b && c && d) ≡ false → a ≡ true → b ≡ true → c ≡ true → d ≡ false
  all_true a b c d h x y z = ground arith

  -- Without a socket the process exits with a failure, and there is nothing to shut down.
  pub server_init-no_socket :
      os.descriptor ≡ none
      → whole_run ≡ (fault exit_failure, socket ∷ signal sigint ∷ signal sigterm ∷ calls)
  unfolding socket_create server_init
  server_init-no_socket h = rw (h, socket_create) refl

  module _ (fd : ℕ) (made : os.descriptor ≡ some fd) where
    -- The calls up to the first option of the socket, the second, the address, and the queue.
    abbrev to_reuseaddr : List Call
    to_reuseaddr = setsockopt fd so_reuseaddr ∷ socket ∷ signal sigint ∷ signal sigterm ∷ calls

    abbrev to_reuseport : List Call
    to_reuseport = setsockopt fd so_reuseport ∷ to_reuseaddr

    abbrev to_bind : List Call
    to_bind = bind fd port ∷ to_reuseport

    abbrev to_listen : List Call
    to_listen = listen fd 96 ∷ to_bind

    abbrev Refused : Type 0
    Refused = (rest : List Call) × (whole_run ≡ (fault exit_failure, shutdown fd ∷ rest))

    refused_listening :
        os.sets so_reuseaddr ≡ true
        → os.sets so_reuseport ≡ true
        → os.binds ≡ true
        → os.listens ≡ false
        → Refused
    unfolding Refused socket_create server_set_sock_opt socket_listen server_init
    refused_listening a p b l = (
      to_listen,
      rw (made, socket_create)
          (rw (a, server_set_sock_opt)
            (rw (p, server_set_sock_opt) (rw (b, socket_listen) (rw (l, socket_listen) refl)))),
    )

    refused_binding :
        os.sets so_reuseaddr ≡ true → os.sets so_reuseport ≡ true → os.binds ≡ false → Refused
    unfolding Refused socket_create server_set_sock_opt socket_listen server_init
    refused_binding a p b = (
      to_bind,
      rw (made, socket_create)
          (rw (a, server_set_sock_opt) (rw (p, server_set_sock_opt) (rw (b, socket_listen) refl))),
    )

    -- If the system refuses an option of the socket, its address, or to listen, the process exits
    -- with a failure, and the socket is shut down just before.
    pub server_init-refused :
        (os.sets so_reuseaddr && os.sets so_reuseport && os.binds && os.listens) ≡ false
        → (rest : List Call) × (whole_run ≡ (fault exit_failure, shutdown fd ∷ rest))
    unfolding Refused socket_create server_set_sock_opt server_init
    server_init-refused h = elim (Bool-cases (os.sets so_reuseaddr)) [
      | inr a ↦ (to_reuseaddr, rw (made, socket_create) (rw (a, server_set_sock_opt) refl))
      | inl a ↦ elim (Bool-cases (os.sets so_reuseport)) [
        | inr p ↦ (
          to_reuseport,
          rw (made, socket_create) (rw (a, server_set_sock_opt) (rw (p, server_set_sock_opt) refl)),
        )
        | inl p ↦ elim (Bool-cases os.binds) [
          | inr b ↦ refused_binding a p b
          | inl b ↦ refused_listening a p b (all_true _ _ _ _ h a p b)
        ]
      ]
    ]
