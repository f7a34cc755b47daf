-- ===== src/Server/SocketRead/Leftover.antt =====
-- server/server.c: `socket_read` on a request that is not complete when nothing is left to read. All
-- connections share the parser.
use crinha.Prelude.{
  ℕ, ◌+◌, ◌≤◌, ◌<◌, ◌≡◌, refl, ap, ◌∙◌, some, List, [], ◌∷◌, ◌++◌, length, ok, arith,
}
use crinha.Clib.Memory.{c_str, IsText}
use crinha.Router.{Routes, router_route}
use crinha.HttpParser.Llhttp.{Llhttp, on_url, hpe_ok}
use crinha.HttpParser.Parser.{resumed, http_parser_get_method, http_parser_request_is_complete}
use crinha.HttpParser.Buffers.{http_parser_reset_request-IsValid}
use crinha.HttpParser.Delivery.{
  Delivers, whole_request, Holds, IsCleared, http_parser_parse-Holds, http_parser_parse-piece,
}
use crinha.Server.SocketRead.{Service, answer, read_chunk, socket_read}

module _ (ll : Llhttp) {S : Type 0} (routes : Routes S) where
  -- A complete request is given to the router with its URL and its body.
  answer-routed :
      (s : Service ll S) (url body response : List ℕ) (app : S)
      → Holds url body s.parser.request
      → router_route routes (ll.method s.parser.parser) url (some body) s.app ≡ ok (response, app)
      → (s' : Service ll S) × (answer ll routes s ≡ ok s')
        × (s'.sent ≡ response ∷ s.sent)
        × (s'.app ≡ app)
  unfolding answer http_parser_get_method
  answer-routed s url body response app holds handled =
      let (p, e, _, _, _, _) = http_parser_reset_request-IsValid ll s.parser holds.valid in
      let method = ll.method s.parser.parser in
      let routed =
        ap (λ u. router_route routes method u (some (c_str s.parser.request.body)) s.app)
          holds.url_is
        ∙ ap (λ b. router_route routes method url (some b) s.app) holds.body_is
        ∙ handled in
      (
        record { parser = p; app = app; sent = response ∷ s.sent },
        rw (routed, answer) (rw e refl),
        refl,
        refl,
      )

  -- Two connections, of which the first sends only a piece of a URL before nothing is left to read: it
  -- is not answered, and the piece stays. What the second sends is taken for the rest of
  -- the first one's request: it is routed under the first one's piece with its own URL behind it, and
  -- the second is sent the answer. (The pieces are shorter than the buffers, without NUL, and llhttp
  -- takes the second for the end of the first.)
  pub socket_read-mixed :
      (s : Service ll S) (first second piece url body response : List ℕ) (app : S) {p q : ll.P}
      → IsCleared s.parser.request
      → length first < 1024
      → length second < 1024
      → IsText piece
      → IsText url
      → IsText body
      → length piece + length url < 256
      → length body ≤ 1024
      → Delivers (ll.execute (resumed ll s.parser.parser) first) (on_url piece ∷ []) p hpe_ok
      → Delivers (ll.execute (resumed ll p) second) (whole_request url body) q hpe_ok
      → router_route routes (ll.method q) (piece ++ url) (some body) s.app ≡ ok (response, app)
      → (s' s'' : Service ll S) × (socket_read ll routes (first ∷ []) s ≡ ok s')
        × (s'.sent ≡ s.sent)
        × (socket_read ll routes (second ∷ []) s' ≡ ok s'')
        × (s''.sent ≡ response ∷ s.sent)
        × (s''.app ≡ app)
  unfolding socket_read read_chunk http_parser_request_is_complete
  socket_read-mixed s first second piece url body response app {p} {q} cleared short short' t u b
        room fits d d' handled =
      let (one, parsed, v, url_is, body_is, unfinished) =
        http_parser_parse-piece ll s.parser first piece cleared t (omega (arith, room)) d in
      let s' : Service ll S = record s { parser = record { parser = p; request = one } } in
      let (two, parsed', holds) =
        http_parser_parse-Holds ll s'.parser second piece url body v url_is body_is u b room fits
          d' in
      let (s'', e, sent, same) =
        answer-routed (record s { parser = record { parser = q; request = two } }) (piece ++ url)
          body response app holds handled in
      (
        s',
        s'',
        ground (arith, parsed, unfinished),
        refl,
        ground (arith, parsed', holds.complete, e),
        sent,
        same,
      )
