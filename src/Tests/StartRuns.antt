-- ===== src/Tests/StartRuns.antt =====
-- The start and the end of the process: main.c, server/server.c and util/db_connection.c.
use crinha.Prelude.{
  ℕ, zero, suc, ◌+◌, ◌<◌, ◌≡◌, refl, ◌==◌, true, false, Option, none, some, List, [], ◌∷◌, codes,
  ok, fault, exit_failure, null_pointer, if◌then◌else◌, arith, length,
}
use crinha.Prelude.Int.{pos}
use crinha.Db.Libpq.{Libpq}
use crinha.Db.State.{Db}
use crinha.Db.Connection.{db_connect}
use crinha.Db.Connecting.{attempt, db_connect-first}
use crinha.Router.{no_routes, Routes}
use crinha.Controller.Handlers.Routing.{routes}
use crinha.Server.SocketRead.{Service}
use crinha.Server.Loop.{Server}
use crinha.Server.System.{Answers, Call, shutdown}
use crinha.Server.Startup.{Turn, server_init}
use crinha.Server.Startup.Failure.{server_init-refused}
use crinha.Main.{Surroundings, main}
use crinha.Main.Start.{main-no_port}
use crinha.Main.Life.{first_server}
use crinha.Tests.Toys.{toy_llhttp, toy_jansson, toy_libpq, one_client}
use crinha.Tests.ServerRuns.{raw, requests, idle}

-- A system that grants descriptor 3, and one that refuses to listen.
abbrev granting : Answers
granting = record { descriptor = some 3; sets = λ o. true; binds = true; listens = true }

abbrev refusing : Answers
refusing = record granting { listens = false }

server_init-refused_example :
    (rest : List Call) × (server_init toy_llhttp
        (no_routes {S = Unit {0}})
        refusing
        8080
        tt
        raw
        []
        []
        0
        []
      ≡ (fault exit_failure, shutdown 3 ∷ rest))
server_init-refused_example =
    server_init-refused toy_llhttp no_routes refusing 8080 tt raw [] [] 0 [] 3 refl refl

-- One round in which a client connects, and a signal.
abbrev turns : List Turn
turns =
    record { is_ready = true; revents = idle; input = requests; is_signalled = false }
    ∷ record { is_ready = false; revents = []; input = λ k. []; is_signalled = true }
    ∷ []

-- A server that refuses the first connection.
abbrev slow_libpq : Libpq
slow_libpq = record (toy_libpq one_client) {
  World = ℕ;
  server_version = λ c w. pos 150000;
  connectdb = λ text w. (some tt, w + 1);
  finish = λ c w. 0;
  status = λ c w. if w == 1 then 1 else 0;
  reset = λ c w. w;
  exec = λ c q w. (some one_client, w);
  send_query = λ c q w. (true, w);
  get_result = λ c w. (none, w);
  clear = λ r w. w;
  pending = λ c w. 0;
}

first_bad :
    (j : ℕ) → j < 1 → ((if (attempt slow_libpq [] j (some tt, 1)).1 == 1 then 1 else 0) == 1) ≡ true
first_bad zero h = refl
first_bad (suc j) h = absurd (omega arith)

db_connect-first_example : db_connect slow_libpq 2 [] 0 ≡ ok (some tt, 2)
db_connect-first_example = db_connect-first slow_libpq [] 1 2 0 first_bad refl (omega arith)

abbrev both_set : List ℕ → Option (List ℕ)
both_set name = if length name == 4 then some (codes "9999") else some []

abbrev no_port : List ℕ → Option (List ℕ)
no_port name = if length name == 4 then none else some []

abbrev unset : Surroundings
unset = record {
  getenv = no_port;
  os = granting;
  pfds = raw;
  accepts = some 4 ∷ [];
  turns = turns;
  attempts = 2;
}

main-no_port_example :
    main toy_llhttp toy_jansson slow_libpq (λ w. (codes "2024-02-01T00:00:00", 0)) unset 0 []
    ≡ (fault null_pointer, [])
main-no_port_example =
    main-no_port toy_llhttp toy_jansson slow_libpq (λ w. (codes "2024-02-01T00:00:00", 0)) unset 0
      [] [] 1 refl first_bad refl (omega arith) refl

-- Both variables are set: one round in which a client connects, and a signal.
abbrev quiet_turns : List Turn
quiet_turns =
    record { is_ready = true; revents = idle; input = λ k. []; is_signalled = false }
    ∷ record { is_ready = false; revents = []; input = λ k. []; is_signalled = true }
    ∷ []

abbrev set_up : Surroundings
set_up = record unset { getenv = both_set; turns = quiet_turns }

abbrev clock : ℕ → List ℕ × ℕ
clock w = (codes "2024-02-01T00:00:00", 0)

abbrev app_routes : Routes (Db slow_libpq)
app_routes = routes toy_jansson slow_libpq clock

abbrev Any : Service toy_llhttp (Db slow_libpq) → Type 0
Any s = Unit {0}

abbrev first : Server toy_llhttp (Db slow_libpq)
first = first_server toy_llhttp toy_jansson slow_libpq clock Any 3 set_up 0 [] [] (codes "9999") 1
