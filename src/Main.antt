-- ===== src/Main.antt =====
-- main.c: the pool, the routes, the server, and the end of the pool.
pub mod Start
pub mod Life
use crinha.Prelude.{
  ℕ, ◌^◌, Option, none, some, List, codes, Exec, ok, fault, null_pointer, out_of_bounds,
}
use crinha.Prelude.Int.{ℤ, to_bits}
use crinha.Clib.Decimal.{atoi}
use crinha.Util.EnvUtil.{env_util_get}
use crinha.Db.Libpq.{Libpq}
use crinha.Db.State.{Db}
use crinha.Db.Connection.{db_init_pool, db_close_pool}
use crinha.Router.{Routes, no_routes}
use crinha.HttpParser.Llhttp.{Llhttp}
use crinha.Controller.Jansson.{Jansson}
use crinha.Controller.Handlers.{cliente_controller_init}
use crinha.Server.Poll.{PollFd}
use crinha.Server.Loop.{Server}
use crinha.Server.System.{Answers, Sys, ◌>>=◌, done, stop, run}
use crinha.Server.Startup.{Turn, server_init}

abbrev pub env_db_connection_str : List ℕ
env_db_connection_str = codes "DB_CONNECTION_STR"

abbrev pub env_port : List ℕ
env_port = codes "PORT"

-- A number given to a parameter of type uint16_t.
abbrev pub to_u16 : ℤ → ℕ
to_u16 n = to_bits (2 ^ 15) n

-- What the process is given: its environment, the answers of the system, the array of the stack, and
-- the rounds that `db_connect` may take.
pub record Surroundings : Type 0 where
  pub getenv : List ℕ → Option (List ℕ)
  pub os : Answers
  pub pfds : List PollFd
  pub accepts : List (Option ℕ)
  pub turns : List Turn
  pub attempts : ℕ

module _ (ll : Llhttp) (js : Jansson) (pq : Libpq) (local_time : pq.World → List ℕ × ℕ) where
  -- The pool is NULL, and no block is handed out.
  abbrev pub initial_db : pq.World → Db pq
  initial_db w = record { pool = none; world = w; live = 0 }

  -- `atoi` of the port, and the server. `atoi(NULL)` reads through NULL.
  unfoldable pub serve :
      Surroundings → Routes (Db pq) → Db pq → Option (List ℕ) → Sys (Server ll (Db pq) × ℕ)
  unfolding server_init
  serve env routes d none = stop null_pointer
  serve env routes d (some port) =
      server_init ll routes env.os (to_u16 (atoi port)) d env.pfds env.accepts env.turns 0

  -- The database after the process.
  unfoldable pub main : Surroundings → pq.World → Sys (Db pq)
  unfolding db_init_pool cliente_controller_init serve db_close_pool
  main env w = do
    pooled ← run (
        db_init_pool pq env.attempts (env_util_get env.getenv env_db_connection_str) (initial_db w))
    routes ← run (cliente_controller_init js pq local_time no_routes)
    (s, live) ← serve env routes pooled.1 (env_util_get env.getenv env_port)
    done (db_close_pool pq s.service.app)
