-- ===== src/Db.antt =====
-- util/db_connection.c: the pool of one connection, queries and result sets.
pub mod Libpq
pub mod State
pub mod Connection
pub mod ResultSet
pub mod Query
pub mod Blocks
pub mod Drain
pub mod Connecting
