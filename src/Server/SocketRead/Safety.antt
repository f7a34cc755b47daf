-- ===== src/Server/SocketRead/Safety.antt =====
-- server/server.c: `socket_read` on a valid request, with handlers that do not fault.
use crinha.Prelude.{
  ℕ, ◌<◌, ◌≡◌, refl, ◌↔◌, true, false, Bool-cases, inl, inr, some, List, [], ◌∷◌, length, leb,
  arith, ap, ◌∙◌, Exec, ok, IsOk, Exec-cases,
}
use crinha.Clib.Memory.{c_str}
use crinha.Router.{Routes, router_route}
use crinha.HttpParser.Llhttp.{Llhttp}
use crinha.HttpParser.Parser.{
  HttpParser, http_parser_parse, http_parser_request_is_complete, http_parser_get_method,
}
use crinha.HttpParser.Buffers.{
  IsValid, http_parser_parse-IsValid, http_parser_reset_request-IsValid,
}
use crinha.Server.SocketRead.{Service, answer, read_chunk, socket_read}

-- What `recv` returns is shorter than the buffer.
abbrev pub AllShort : List (List ℕ) → Type 0
AllShort [] = Unit {0}
AllShort (c ∷ cs) = (length c < 1024) × AllShort cs

module _ (ll : Llhttp) {S : Type 0} (routes : Routes S) where
  -- If the bytes complete a request, its handler does not fault.
  abbrev pub IsHandled : List ℕ → Service ll S → Type 0
  IsHandled chunk s =
      (p : HttpParser ll)
      → http_parser_parse ll s.parser chunk ≡ ok (p, true)
      → http_parser_request_is_complete ll p ≡ true
      → IsOk (
          router_route routes (http_parser_get_method ll p) (c_str p.request.url)
            (some (c_str p.request.body)) s.app)

  -- The handlers of all requests that the reads complete, each on the state that the reads before have
  -- left.
  abbrev pub AreHandled : List (List ℕ) → Service ll S → Type 0
  AreHandled [] s = Unit {0}
  AreHandled (c ∷ cs) s =
      IsHandled c s × ((s' : Service ll S) → read_chunk ll routes c s ≡ ok s' → AreHandled cs s')

  abbrev pub Succeeds : Exec (Service ll S) → Type 0
  Succeeds m = (s' : Service ll S) × (m ≡ ok s') × IsValid s'.parser.request

  answer-IsValid :
      (s : Service ll S)
      → IsValid s.parser.request
      → IsOk (
          router_route routes
            (http_parser_get_method ll s.parser)
            (c_str s.parser.request.url)
            (some (c_str s.parser.request.body))
            s.app)
      → Succeeds (answer ll routes s)
  unfolding answer
  answer-IsValid s v ((response, app), e) =
      let (p, e', v', _, _, _) = http_parser_reset_request-IsValid ll s.parser v in
      (record { parser = p; app = app; sent = response ∷ s.sent }, rw (e, answer) (rw e' refl), v')

  read_chunk-IsValid :
      (chunk : List ℕ) (s : Service ll S)
      → length chunk < 1024
      → IsValid s.parser.request
      → IsHandled chunk s
      → Succeeds (read_chunk ll routes chunk s)
  unfolding read_chunk
  read_chunk-IsValid chunk s h v handled =
      let (p, parsed, e, v') = http_parser_parse-IsValid ll s.parser chunk v in
      let s' : Service ll S = record s { parser = p } in
      elim (Bool-cases parsed) [
        | inr refused ↦ (s', ground (arith, e), v')
        | inl taken ↦ elim (Bool-cases (http_parser_request_is_complete ll p)) [
          | inr more ↦ (s', ground (arith, e), v')
          | inl whole ↦
              let (s'', e', v'') =
                answer-IsValid s' v' (handled p (e ∙ ap (λ b. ok (p, b)) taken) whole) in
              (s'', ground (arith, e, e'), v'')
        ]
      ]

  too_long :
      (chunk : List ℕ) (s s' : Service ll S)
      → leb 1024 (length chunk) ≡ true
      → read_chunk ll routes chunk s ≡ ok s'
      → length chunk < 1024
  unfolding read_chunk
  too_long chunk s s' full e = absurd (cc (rw (full, read_chunk) at e))

  router_of_chunk :
      (chunk : List ℕ) (s s' : Service ll S)
      → read_chunk ll routes chunk s ≡ ok s'
      → length chunk < 1024
      → IsHandled chunk s
  unfolding read_chunk answer
  router_of_chunk chunk s s' e short p parsed whole =
      elim (Exec-cases (
        router_route routes (http_parser_get_method ll p) (c_str p.request.url)
          (some (c_str p.request.body)) s.app)) [
            | inl h ↦ h
            | inr (f, faulted) ↦
                let room : leb 1024 (length chunk) ≡ false = ground arith in
                absurd (
                  cc (
                    rw (faulted, answer) at
                      (rw (whole, read_chunk) at
                        (rw (parsed, read_chunk) at (rw (room, read_chunk) at e)))))
          ]

  -- One call of `recv`, on a valid request, is served without a fault exactly if it returns fewer bytes
  -- than the buffer has, and the handler of the request that they complete, if they complete one, does
  -- not fault: the 1024 bytes that `recv` may return are one too many for the NUL behind them.
  pub read_chunk-IsOk_iff :
      (chunk : List ℕ) (s : Service ll S)
      → IsValid s.parser.request
      → IsOk (read_chunk ll routes chunk s) ↔ ((length chunk < 1024) × IsHandled chunk s)
  read_chunk-IsOk_iff chunk s v = (
    λ (s', e).
        let short : length chunk < 1024 = elim (Bool-cases (leb 1024 (length chunk))) [
          | inl full ↦ too_long chunk s s' full e
          | inr room ↦ ground arith
        ] in
        (short, router_of_chunk chunk s s' e short),
    λ (h, handled). let (s', e, _) = read_chunk-IsValid chunk s h v handled in (s', e),
  )

  -- A connection whose reads are shorter than the buffer is served to its end without a fault, and
  -- leaves a valid request in the parser, if it was valid, and if the handlers of the requests that the
  -- reads complete do not fault.
  pub socket_read-IsValid :
      (chunks : List (List ℕ)) (s : Service ll S)
      → AllShort chunks
      → IsValid s.parser.request
      → AreHandled chunks s
      → (s' : Service ll S) × (socket_read ll routes chunks s ≡ ok s') × IsValid s'.parser.request
  unfolding socket_read
  socket_read-IsValid [] s h v handled = (s, refl, v)
  socket_read-IsValid (c ∷ cs) s h v handled =
      let (s', e, v') = read_chunk-IsValid c s h.0 v handled.0 in
      let (s'', e', v'') = socket_read-IsValid cs s' h.1 v' (handled.1 s' e) in
      (s'', rw (e, socket_read) e', v'')
