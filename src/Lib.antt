-- ===== src/Lib.antt =====
-- A model of the server of the bank's accounts, and what holds of it.
--
-- The program answers HTTP requests on one thread. server.c polls up to 16 sockets and reads them; what
-- it reads goes through http_parser.c, which lets llhttp parse it and fills the buffers of the one
-- request; router.c finds the handler by method and URL; cliente_controller.c checks the request, asks
-- the repositories for the client, and sends the transaction; the repositories write SQL and run it
-- over the one connection of db_connection.c.
--
-- The files, and the code that they model (paths are those of the repository):
--   Prelude       numbers, tests, lists, signed integers, and C computations that may fault
--   Clib          the functions of the C library that the program uses: copies, decimal numbers, and
--                 POSIX regular expressions as far as the program's patterns go
--   Util          src/util/string_util.c, array_list.c, env_util.c and uuid_util.c
--   Entity        src/entity/cliente.h and transacao.h
--   Db            src/util/db_connection.c. Db/Libpq is the library that it calls
--   Repository    src/repository/ and src/service/
--   Router        src/server/router.c
--   Controller    src/controller/cliente_controller.c. Controller/Jansson is the JSON library
--   HttpParser    src/server/http_parser.c. HttpParser/Llhttp is the parser that it calls
--   Server        src/server/server.c: the poll table, reading a socket, the rounds of the loop, and
--                 in Server/Startup the setting up of the socket, the loop until a signal, server_init
--   Main          src/main.c
--   Account       the specification of clients' accounts, for the controller and the server; Account/Bank
--                 says what is relied on of the database and its schema stack/init.sql, Account/Extrato
--                 what a statement's JSON is, and what is relied on of jansson's printing
--   Library       include/llhttp.h, jansson.h and libpq-fe.h: their constants, tables and inline
--                 functions
--   Tests         runs on concrete requests, among them a database that reads the SQL texts
--
-- A function of the program has its name here, in the module of its file; a part of a long function
-- that is a definition of its own says so. State is passed explicitly: `Db` holds the pool, the world
-- behind libpq and the number of blocks of the heap; `HttpParser` the parser and its request; `Service`
-- adds what was sent; `Server` the poll table, the descriptors that were closed, and the outcomes of
-- `accept` that are still to come; `Sys` records the calls of the system that set the socket up. A
-- computation returns `Exec`: a value, or a fault where C has a read or a call through NULL, an access
-- past the end of an array, or `exit`. Character arrays are lists of all their bytes, so a copy that does
-- not fit is a fault. Numbers of int64_t wrap where the code subtracts or adds; `json_pack` and `%d` cut
-- to 32 bits.
--
-- llhttp, jansson, libpq and libuuid are parameters, records of the functions that are called. What is
-- assumed of them is said by the records `Documented`, `Prints`, `Writes`, `Drains` and `Unparses`, as
-- their documentation says it, and by `Bank` of the database behind libpq. What the kernel answers (`socket`,
-- `bind`, `listen`, `poll`, `accept`, `recv`), the environment, and when a signal comes are inputs. The
-- loop of `db_execute_async` runs on fuel of one more than the results that are pending, which is enough;
-- the loop of `db_connect`, which ends only once a server answers, takes its fuel as an argument: one
-- more than the attempts that fail is enough. The loop of the server runs on the turns that the system
-- has for it.
--
-- Not modelled: the log library, which is a copy of another project's; the functions behind the headers
-- under include/, and the internal and generated headers there; what `send` returns (the code does not
-- look at it), memory that runs out, and the blocks that jansson and libpq take for themselves.
pub mod Prelude
pub mod Clib
pub mod Util
pub mod Entity
pub mod Db
pub mod Repository
pub mod Router
pub mod Controller
pub mod HttpParser
pub mod Server
pub mod Tests
pub mod Library
pub mod Main
pub mod Account
