-- ===== src/Repository.antt =====
-- repository/: the SQL texts that are sent, and the rows that are read.
pub mod Sql
pub mod Fields
pub mod Rows
pub mod ClienteRepository
pub mod TransacaoRepository
