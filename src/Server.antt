-- ===== src/Server.antt =====
-- server/server.c: the poll table, reading a socket, and the loop.
pub mod Poll
pub mod SocketRead
pub mod Loop
pub mod Outage
pub mod System
pub mod Startup
