-- ===== src/Clib.antt =====
-- The part of the C library that the server calls: strings in buffers, character classes, decimal
-- numbers and POSIX regular expressions. Strings are lists of bytes.
pub mod Memory
pub mod Decimal
pub mod Regex
