-- ===== src/Library/Libpq.antt =====
-- include/libpq-fe.h: the numbers that libpq and db_connection.c share.
pub mod Status
