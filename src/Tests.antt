-- ===== src/Tests.antt =====
-- Runs of the model on concrete requests, with concrete libraries in place of llhttp, jansson and
-- libpq.
pub mod Toys
pub mod ServerRuns
pub mod ParserRuns
pub mod ControllerRuns
pub mod DbRuns
pub mod StatementRuns
pub mod UrlRuns
pub mod BankDb
pub mod AccountRuns
pub mod StartRuns
pub mod BankSql
pub mod RequestRuns
pub mod PostingRuns
pub mod Writer
