-- ===== src/Library.antt =====
-- include/: what the program's files take from the headers of the libraries that it is linked to.
pub mod Table
pub mod Llhttp
pub mod Jansson
pub mod Libpq
