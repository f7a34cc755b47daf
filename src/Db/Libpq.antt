-- ===== src/Db/Libpq.antt =====
-- The functions of libpq that util/db_connection.c calls. The library is not part of the
-- repository's code: a program of the model takes it as a parameter. A connection and a result are
-- pointers, which may be NULL; what the library and the server behind it remember is the world.
use crinha.Library.Libpq.Status.{
  ConnStatusType, conn_status_value, ExecStatusType, exec_status_value,
}
use crinha.Prelude.Int.{ℤ}
use crinha.Prelude.{ℕ, ◌<◌, ◌≡◌, Bool, List, Option, some}

pub record Libpq : Type 1 where
  pub Conn : Type 0
  pub Res : Type 0
  pub World : Type 0
  pub lib_version : ℤ
  pub server_version : Option Conn → World → ℤ
  pub connectdb : List ℕ → World → Option Conn × World
  pub finish : Conn → World → World
  pub status : Option Conn → World → ℕ
  pub reset : Option Conn → World → World
  pub exec : Option Conn → List ℕ → World → Option Res × World
  pub send_query : Option Conn → List ℕ → World → Bool × World
  pub get_result : Option Conn → World → Option Res × World
  pub clear : Option Res → World → World
  pub result_status : Option Res → ℕ
  pub ntuples : Option Res → ℕ
  pub nfields : Option Res → ℕ
  pub getvalue : Option Res → ℕ → ℕ → List ℕ
  -- How many results `get_result` has still to return before NULL.
  pub pending : Option Conn → World → ℕ

-- The constants of libpq-fe.h.
abbrev pub connection_ok : ℕ
connection_ok = conn_status_value ConnStatusType.connection_ok

abbrev pub connection_bad : ℕ
connection_bad = conn_status_value ConnStatusType.connection_bad

abbrev pub pgres_command_ok : ℕ
pgres_command_ok = exec_status_value ExecStatusType.pgres_command_ok

abbrev pub pgres_tuples_ok : ℕ
pgres_tuples_ok = exec_status_value ExecStatusType.pgres_tuples_ok

-- The documentation of PQgetResult: it is to be called until it returns NULL, which says that the
-- command is done. A result that is returned is no longer pending, and freeing it makes none.
pub record Drains (pq : Libpq) : Type 0 where
  pub falls :
      (c : Option pq.Conn) (w w' : pq.World) (r : pq.Res)
      → pq.get_result c w ≡ (some r, w')
      → pq.pending c (pq.clear (some r) w') < pq.pending c w
