-- ===== src/Db/Connecting.antt =====
-- util/db_connection.c: `db_connect` tries until the server answers.
use crinha.Prelude.{
  ℕ, zero, suc, ◌<◌, ◌≡◌, refl, ap, ◌==◌, true, false, Option, none, some, List, ok, arith,
}
use crinha.Db.Libpq.{Libpq, connection_bad}
use crinha.Db.Connection.{db_connect_loop, db_connect, db_add_to_pool, db_init_pool}
use crinha.Db.State.{Db}

module _ (pq : Libpq) (text : List ℕ) where
  open pq use {Conn, World, connectdb, status}

  -- The connection and the world after `k` further attempts.
  abbrev pub attempt : ℕ → Option Conn × World → Option Conn × World
  attempt zero c = c
  attempt (suc k) c = attempt k (connectdb text c.1)

  abbrev pub IsBad : Option Conn × World → Type 0
  IsBad c = (status c.0 c.1 == connection_bad) ≡ true

  pub db_connect_loop-first :
      (k fuel : ℕ) (c : Option Conn × World)
      → ((j : ℕ) → j < k → IsBad (attempt j c))
      → (status (attempt k c).0 (attempt k c).1 == connection_bad) ≡ false
      → k < fuel
      → db_connect_loop pq fuel text c.0 c.1 ≡ ok (attempt k c)
  unfolding db_connect_loop
  db_connect_loop-first k zero c bad good room = absurd (omega arith)
  db_connect_loop-first zero (suc fuel) c bad good room = rw (good, db_connect_loop) refl
  db_connect_loop-first (suc k) (suc fuel) c bad good room =
      rw (bad 0 (omega arith), db_connect_loop)
        (db_connect_loop-first k fuel (connectdb text c.1) (λ j h. bad (suc j) (omega arith)) good
          (omega arith))

  -- If the attempts before the k-th leave a bad connection and the k-th does not, `db_connect` ends and
  -- returns that connection, having connected k times and once more.
  pub db_connect-first :
      (k fuel : ℕ) (w : World)
      → ((j : ℕ) → j < k → IsBad (attempt j (connectdb text w)))
      → (status (attempt k (connectdb text w)).0 (attempt k (connectdb text w)).1 == connection_bad)
        ≡ false
      → k < fuel
      → db_connect pq fuel text w ≡ ok (attempt k (connectdb text w))
  unfolding db_connect
  db_connect-first k fuel w bad good room =
      db_connect_loop-first k fuel (connectdb text w) bad good room

  -- The pool before and after.
  abbrev pub unconnected : World → Db pq
  unconnected w = record { pool = none; world = w; live = 0 }

  abbrev pub connected : ℕ → World → Db pq
  connected k w = record {
    pool = (attempt k (connectdb text w)).0;
    world = (attempt k (connectdb text w)).1;
    live = 0;
  }

  db_add_to_pool-unconnected :
      (conn : Option Conn) (w : World)
      → db_add_to_pool pq conn (unconnected w) ≡ record { pool = conn; world = w; live = 0 }
  unfolding db_add_to_pool
  db_add_to_pool-unconnected none w = refl
  db_add_to_pool-unconnected (some c) w = refl

  -- `db_init_pool` leaves the first connection that is not bad in the pool.
  pub db_init_pool-first :
      (k fuel : ℕ) (w : World)
      → ((j : ℕ) → j < k → IsBad (attempt j (connectdb text w)))
      → (status (attempt k (connectdb text w)).0 (attempt k (connectdb text w)).1 == connection_bad)
        ≡ false
      → k < fuel
      → db_init_pool pq fuel (some text) (unconnected w) ≡ ok (tt, connected k w)
  unfolding db_init_pool
  db_init_pool-first k fuel w bad good room =
      rw (db_connect-first k fuel w bad good room, db_init_pool)
        (ap (λ d. ok (tt, d))
          (db_add_to_pool-unconnected (attempt k (connectdb text w)).0
            (attempt k (connectdb text w)).1))
