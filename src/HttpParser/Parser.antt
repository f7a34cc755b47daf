-- ===== src/HttpParser/Parser.antt =====
-- server/http_parser.c: the calls of llhttp, and the request that its callbacks fill.
use crinha.Prelude.{
  ℕ, ◌==◌, ◌||◌, ◌&&◌, not, if◌then◌else◌, Bool, true, false, List, Exec, ok, ◌>>=◌,
}
use crinha.HttpParser.Llhttp.{Llhttp, Run, returns, calls, hpe_ok, hpe_paused, hpe_paused_upgrade}
use crinha.HttpParser.Request.{HttpRequest, handle, clear_request, fresh_request}

-- `llhttp_t` with the request that `parser->data` points to.
pub record HttpParser (ll : Llhttp) : Type 0 where
  pub parser : ll.P
  pub request : HttpRequest

abbrev pub is_paused : ℕ → Bool
is_paused status = (status == hpe_paused) || (status == hpe_paused_upgrade)

module _ (ll : Llhttp) where
  open ll use {
    P, execute, get_errno, resume, resume_after_upgrade, finish, reset, method, is_closed, start,
  }

  -- A run of `llhttp_execute` with the server's callbacks.
  unfoldable pub run_callbacks : Run P → HttpRequest → Exec (P × ℕ × HttpRequest)
  run_callbacks (returns p status) r = ok (p, status, r)
  run_callbacks (calls e k) r = handle e r >>= λ (r', code). run_callbacks (k code) r'

  unfoldable pub http_parser_reset_request : HttpParser ll → Exec (HttpParser ll)
  http_parser_reset_request s = do
    request ← clear_request s.request
    ok (record {
      parser = if is_closed s.parser then reset s.parser else s.parser;
      request = request;
    })

  unfoldable pub http_parser_init : Exec (HttpParser ll)
  http_parser_init = http_parser_reset_request (record { parser = start; request = fresh_request })

  unfoldable pub http_parser_request_is_complete : HttpParser ll → Bool
  http_parser_request_is_complete s = s.request.complete

  unfoldable pub http_parser_get_method : HttpParser ll → ℕ
  http_parser_get_method s = method s.parser

  abbrev pub resumed : P → P
  resumed p = if is_paused (get_errno p) then resume_after_upgrade (resume p) else p

  abbrev pub is_error : ℕ → Bool
  is_error status = not (status == hpe_ok) && not (is_paused status)

  unfoldable pub http_parser_parse : HttpParser ll → List ℕ → Exec (HttpParser ll × Bool)
  http_parser_parse s text = do
    (p, status, request) ← run_callbacks (execute (resumed s.parser) text) s.request
    if is_error status
        then (do
          (p', _, request') ← run_callbacks (finish p) request
          ok (record { parser = p'; request = request' }, false))
        else ok (record { parser = p; request = request }, true)
