-- ===== src/Server/SocketRead.antt =====
-- server/server.c: `socket_read`, which answers the requests of one connection.
pub mod Safety
pub mod Leftover
use crinha.Prelude.{
  ℕ, leb, if◌then◌else◌, true, false, some, List, [], ◌∷◌, length, Exec, ok, fault, out_of_bounds,
}
use crinha.Clib.Memory.{c_str}
use crinha.Router.{Routes, router_route}
use crinha.HttpParser.Llhttp.{Llhttp}
use crinha.HttpParser.Parser.{
  HttpParser, http_parser_parse, http_parser_request_is_complete, http_parser_reset_request,
  http_parser_get_method,
}

abbrev pub socket_max_read_buffer : ℕ
socket_max_read_buffer = 1024

-- The parser is shared by all connections; `app` is what the handlers change, and `sent` are the
-- answers, the last one first.
pub record Service (ll : Llhttp) (S : Type 0) : Type 0 where
  pub parser : HttpParser ll
  pub app : S
  pub sent : List (List ℕ)

module _ (ll : Llhttp) {S : Type 0} (routes : Routes S) where
  -- A complete request is routed and answered, and the request is reset.
  unfoldable pub answer : Service ll S → Exec (Service ll S)
  answer s =
      elim (router_route routes (http_parser_get_method ll s.parser) (c_str s.parser.request.url)
        (some (c_str s.parser.request.body)) s.app) [
          | fault e ↦ fault e
          | ok (response, app) ↦ elim (http_parser_reset_request ll s.parser) [
            | fault e ↦ fault e
            | ok p ↦ ok (record { parser = p; app = app; sent = response ∷ s.sent })
          ]
        ]

  -- The body of the loop, with what `recv` has put into the buffer. The NUL behind it must fit.
  unfoldable pub read_chunk : List ℕ → Service ll S → Exec (Service ll S)
  read_chunk chunk s =
      if leb socket_max_read_buffer (length chunk)
      then fault out_of_bounds
      else elim (http_parser_parse ll s.parser chunk) [
        | fault e ↦ fault e
        | ok (p, parsed) ↦ elim parsed [
          | false ↦ ok (record s { parser = p })
          | true ↦
              if http_parser_request_is_complete ll p
              then answer (record s { parser = p })
              else ok (record s { parser = p })
        ]
      ]

  -- `while ((valread = recv(…)) > 0)`: the chunks are what the calls of `recv` return before one
  -- returns 0 or -1.
  unfoldable pub socket_read : List (List ℕ) → Service ll S → Exec (Service ll S)
  socket_read [] s = ok s
  socket_read (chunk ∷ chunks) s = elim (read_chunk chunk s) [
    | fault e ↦ fault e
    | ok s' ↦ socket_read chunks s'
  ]
