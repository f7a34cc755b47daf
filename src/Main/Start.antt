-- ===== src/Main/Start.antt =====
-- main.c: a variable that is not set.
use crinha.Prelude.{
  ℕ, ◌<◌, ◌≡◌, refl, ◌==◌, false, none, some, List, fault, exit_failure, null_pointer,
}
use crinha.Db.Libpq.{Libpq, connection_bad}
use crinha.Db.Connection.{db_init_pool}
use crinha.Db.Connecting.{attempt, IsBad, db_init_pool-first}
use crinha.HttpParser.Llhttp.{Llhttp}
use crinha.Controller.Jansson.{Jansson}
use crinha.Controller.Handlers.Routing.{init-routes}
use crinha.Server.System.{Call}
use crinha.Main.{Surroundings, env_db_connection_str, env_port, serve, main}

module _ (ll : Llhttp) (js : Jansson) (pq : Libpq) (local_time : pq.World → List ℕ × ℕ)
    (env : Surroundings) (w : pq.World) (calls : List Call) where
  -- Without a string for the connection the process exits with a failure; it has connected to nothing
  -- and opened no socket.
  pub main-no_database :
      env.getenv env_db_connection_str ≡ none
      → main ll js pq local_time env w calls ≡ (fault exit_failure, calls)
  unfolding main db_init_pool
  main-no_database h = rw (h, db_init_pool) refl

  -- With a connection and no port the process reads through NULL: `atoi` is given what `getenv`
  -- returned. No socket is opened. (The string for the connection is set, and some attempt to connect
  -- leaves a connection that is not bad.)
  pub main-no_port :
      (text : List ℕ) (k : ℕ)
      → env.getenv env_db_connection_str ≡ some text
      → ((j : ℕ) → j < k → IsBad pq text (attempt pq text j (pq.connectdb text w)))
      → (pq.status
            (attempt pq text k (pq.connectdb text w)).0
            (attempt pq text k (pq.connectdb text w)).1
          == connection_bad)
        ≡ false
      → k < env.attempts
      → env.getenv env_port ≡ none
      → main ll js pq local_time env w calls ≡ (fault null_pointer, calls)
  unfolding main serve
  main-no_port text k h bad good room p =
      rw (h, main)
        (rw (db_init_pool-first pq text k env.attempts w bad good room)
          (rw (init-routes js pq local_time) (rw (p, serve) refl)))
