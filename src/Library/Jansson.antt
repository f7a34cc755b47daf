-- ===== src/Library/Jansson.antt =====
-- include/jansson.h: the types of values, and the functions that the header defines.
pub mod Value
pub mod Reference
pub mod Counting
pub mod ErrorReport
