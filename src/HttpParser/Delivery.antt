-- ===== src/HttpParser/Delivery.antt =====
-- server/http_parser.c: a request that llhttp delivers whole.
use crinha.Prelude.{
  ℕ, ◌+◌, false, ◌≤◌, ◌<◌, ◌≡◌, refl, ap, ◌∙◌, true, List, [], ◌∷◌, ◌++◌, length, arith, ok,
}
use crinha.Clib.Memory.{c_str, IsText}
use crinha.Clib.Memory.Copy.{c_str-text}
use crinha.HttpParser.Llhttp.{
  Llhttp, Run, returns, calls, Event, on_url, on_body, on_message_complete, hpe_ok,
}
use crinha.HttpParser.Request.{HttpRequest, handle, handle_on_message_complete}
use crinha.HttpParser.Parser.{HttpParser, run_callbacks, http_parser_parse, resumed}
use crinha.HttpParser.Buffers.{IsValid, handle_on_url_fits, handle_on_body_fits}

-- The events that a call of llhttp reports, as long as the callbacks return HPE_OK, and how it ends.
pub data Delivers {P : Type 0} : Run P → List Event → P → ℕ → Type 0 where
  ends : {p : P} {status : ℕ} → Delivers (returns p status) [] p status
  reports :
      {e : Event} {k : ℕ → Run P} {es : List Event} {p : P} {status : ℕ}
      → Delivers (k 0) es p status
      → Delivers (calls e k) (e ∷ es) p status

-- The callbacks take the events, each returning HPE_OK.
abbrev pub Takes : List Event → HttpRequest → HttpRequest → Type 0
Takes [] r out = r ≡ out
Takes (e ∷ es) r out = (next : HttpRequest) × (handle e r ≡ ok (next, 0)) × Takes es next out

-- A request in one piece.
abbrev pub whole_request : List ℕ → List ℕ → List Event
whole_request url body = on_url url ∷ on_body body ∷ on_message_complete ∷ []

-- The request that holds a URL and a body.
pub record Holds (url body : List ℕ) (r : HttpRequest) : Type 0 where
  pub valid : IsValid r
  pub url_is : c_str r.url ≡ url
  pub body_is : c_str r.body ≡ body
  pub complete : r.complete ≡ true

-- A request that has been cleared.
pub record IsCleared (r : HttpRequest) : Type 0 where
  pub valid : IsValid r
  pub no_url : c_str r.url ≡ []
  pub no_body : c_str r.body ≡ []
  pub unfinished : r.complete ≡ false

module _ (ll : Llhttp) where
  pub run_callbacks-Delivers :
      {run : Run ll.P} {es : List Event} {p : ll.P} {status : ℕ} (r out : HttpRequest)
      → Delivers run es p status
      → Takes es r out
      → run_callbacks ll run r ≡ ok (p, status, out)
  unfolding run_callbacks
  run_callbacks-Delivers {p} {status} r out ends e = ap (λ x. ok (p, status, x)) e
  run_callbacks-Delivers r out (reports {e} {k} rest) (next, h, more) =
      rw (h, run_callbacks) (run_callbacks-Delivers next out rest more)

  take_whole :
      (before url body : List ℕ) (r : HttpRequest)
      → IsValid r
      → c_str r.url ≡ before
      → c_str r.body ≡ []
      → IsText url
      → IsText body
      → length before + length url < 256
      → length body ≤ 1024
      → (out : HttpRequest) × Takes (whole_request url body) r out × Holds (before ++ url) body out
  unfolding handle handle_on_message_complete
  take_whole before url body r v old_url no_body u b short fits =
      let x = handle_on_url_fits r url v (omega (arith, ap length old_url, short)) in
      let y =
        handle_on_body_fits x.after body x.valid
          (omega (arith, ap length (x.body_is ∙ no_body), fits)) in
      (
        record y.after { complete = true },
        (
          x.after,
          x.outcome,
          (y.after, y.outcome, (record y.after { complete = true }, refl, refl)),
        ),
        record {
          valid = record {
            url_size = y.valid.url_size;
            url_string = y.valid.url_string;
            body_size = y.valid.body_size;
            body_string = y.valid.body_string;
          };
          url_is =
              y.url_is
              ∙ x.url_is
              ∙ ap (λ t. t ++ c_str url) old_url
              ∙ ap (λ t. before ++ t) (c_str-text url u);
          body_is = y.body_is ∙ ap (λ t. t ++ c_str body) (x.body_is ∙ no_body) ∙ c_str-text body b;
          complete = refl;
        },
      )

  -- A request whose end llhttp delivers, without an error, is parsed: the parser then holds its URL,
  -- with what was there before in front, and its body, and is complete. (The URL has less than 256
  -- bytes and the body at most 1024, none of them NUL.)
  pub http_parser_parse-Holds :
      (s : HttpParser ll) (chunk before url body : List ℕ) {p : ll.P}
      → IsValid s.request
      → c_str s.request.url ≡ before
      → c_str s.request.body ≡ []
      → IsText url
      → IsText body
      → length before + length url < 256
      → length body ≤ 1024
      → Delivers (ll.execute (resumed ll s.parser) chunk) (whole_request url body) p hpe_ok
      → (out : HttpRequest) × (http_parser_parse ll s chunk
          ≡ ok (record { parser = p; request = out }, true))
        × Holds (before ++ url) body out
  unfolding http_parser_parse
  http_parser_parse-Holds s chunk before url body v old_url no_body u b short fits d =
      let (out, takes, holds) =
        take_whole before url body s.request v old_url no_body u b short fits in
      (out, rw (run_callbacks-Delivers s.request out d takes, http_parser_parse) refl, holds)

  -- A piece of a URL that llhttp delivers, without an error, is parsed: the parser then holds it, and
  -- is not complete.
  pub http_parser_parse-piece :
      (s : HttpParser ll) (chunk url : List ℕ) {p : ll.P}
      → IsCleared s.request
      → IsText url
      → length url < 256
      → Delivers (ll.execute (resumed ll s.parser) chunk) (on_url url ∷ []) p hpe_ok
      → (out : HttpRequest) × (http_parser_parse ll s chunk
          ≡ ok (record { parser = p; request = out }, true))
        × IsValid out
        × (c_str out.url ≡ url)
        × (c_str out.body ≡ [])
        × (out.complete ≡ false)
  unfolding http_parser_parse handle
  http_parser_parse-piece s chunk url cleared u short d =
      let x =
        handle_on_url_fits s.request url cleared.valid
          (omega (arith, ap length cleared.no_url, short)) in
      (
        x.after,
        rw
            (
              run_callbacks-Delivers s.request x.after d (x.after, x.outcome, refl),
              http_parser_parse,
            )
            refl,
        x.valid,
        x.url_is ∙ ap (λ t. t ++ c_str url) cleared.no_url ∙ c_str-text url u,
        x.body_is ∙ cleared.no_body,
        x.complete_is ∙ cleared.unfinished,
      )
