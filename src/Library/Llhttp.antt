-- ===== src/Library/Llhttp.antt =====
-- include/llhttp.h: the numbers that llhttp and the server's files share.
pub mod Errno
pub mod Method
pub mod Status
pub mod Settings
pub mod Values
pub mod ParserType
