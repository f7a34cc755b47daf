-- ===== src/Main/Life.antt =====
-- main.c: the whole life of the process.
use crinha.Prelude.{ℕ, List}
use crinha.Clib.Decimal.{atoi}
use crinha.Db.Libpq.{Libpq}
use crinha.Db.State.{Db}
use crinha.Db.Connecting.{connected}
use crinha.HttpParser.Llhttp.{Llhttp}
use crinha.Controller.Jansson.{Jansson}
use crinha.Controller.Handlers.Routing.{routes}
use crinha.Server.SocketRead.{Service}
use crinha.Server.Loop.{Server}
use crinha.Server.System.{Call}
use crinha.Server.Startup.Serving.{start}
use crinha.Main.{Surroundings, to_u16}

module _ (ll : Llhttp) (js : Jansson) (pq : Libpq) (local_time : pq.World → List ℕ × ℕ)
    (Ready : Service ll (Db pq) → Type 0) (sock : ℕ) (env : Surroundings) (w : pq.World)
    (calls : List Call) (text port : List ℕ) (k : ℕ) where
  -- The server when it starts to listen.
  abbrev pub first_server : Server ll (Db pq)
  first_server =
      start ll (routes js pq local_time) sock Ready env.os (to_u16 (atoi port))
        (connected pq text k w) env.pfds env.accepts env.turns 0
