-- ===== src/HttpParser.antt =====
-- server/http_parser.c: the callbacks that collect a request, and the calls of llhttp.
pub mod Llhttp
pub mod Request
pub mod Parser
pub mod Buffers
pub mod Failure
pub mod Lifetime
pub mod Delivery
pub mod Pieces
