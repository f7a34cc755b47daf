-- ===== src/HttpParser/Lifetime.antt =====
-- server/http_parser.c: the callbacks that are registered, and the blocks of the parser, from
-- `http_parser_init` to `http_parser_close`.
use crinha.Prelude.{
  ℕ, ◌+◌, ◌-◌, ◌≡◌, refl, ltb, if◌then◌else◌, Option, none, some, List, arith, Exec, ok, fault,
  out_of_bounds, ◌>>=◌,
}
use crinha.Library.Llhttp.Settings.{LlhttpSettings, no_callbacks}
use crinha.HttpParser.Llhttp.{Llhttp, Event, on_url, on_body, on_message_complete}
use crinha.HttpParser.Request.{
  HttpRequest, handle, handle_on_url, handle_on_body, handle_on_message_complete, fresh_request,
  clear_request,
}
use crinha.Clib.Memory.{write_at, overwrite}
use crinha.HttpParser.Parser.{HttpParser, http_parser_init, http_parser_reset_request}

-- The callbacks with data, and those without.
abbrev pub Settings : Type 0
Settings =
    LlhttpSettings (HttpRequest → List ℕ → Exec (HttpRequest × ℕ)) (HttpRequest → HttpRequest × ℕ)

-- The assignments after `llhttp_settings_init`.
abbrev pub server_settings : Settings
unfolding handle_on_url handle_on_body handle_on_message_complete
server_settings = record no_callbacks {
  on_url = some handle_on_url;
  on_body = some handle_on_body;
  on_message_complete = some handle_on_message_complete;
}

-- A callback that is NULL is skipped, with the result 0.
unfoldable pub call_back : Settings → Event → HttpRequest → Exec (HttpRequest × ℕ)
call_back settings (on_url at) r = elim settings.on_url [ none ↦ ok (r, 0) | some f ↦ f r at ]
call_back settings (on_body at) r = elim settings.on_body [ none ↦ ok (r, 0) | some f ↦ f r at ]
call_back settings on_message_complete r = elim settings.on_message_complete [
  | none ↦ ok (r, 0)
  | some f ↦ ok (f r)
]

-- The server's callbacks are those that llhttp calls through its settings.
pub handle-server_settings :
    (e : Event) (r : HttpRequest) → call_back server_settings e r ≡ handle e r
unfolding call_back handle handle_on_url handle_on_body handle_on_message_complete
handle-server_settings (on_url at) r = refl
handle-server_settings (on_body at) r = refl
handle-server_settings on_message_complete r = refl

-- The three blocks: the parser, its settings, and the request that `parser->data` points to.
pub record Allocated (ll : Llhttp) : Type 0 where
  pub parser : ll.P
  pub settings : Option Settings
  pub request : Option HttpRequest

-- `free` on a block, and on a pointer that may be NULL; `live` blocks are handed out.
unfoldable pub free_block : ℕ → Exec ℕ
free_block live = if ltb live 1 then fault out_of_bounds else ok (live - 1)

abbrev pub free_pointer : {A : Type 0} → Option A → ℕ → Exec ℕ
free_pointer none live = ok live
free_pointer (some a) live = free_block live

module _ (ll : Llhttp) where
  -- The parser that `http_parser_init` returns, with its blocks.
  abbrev pub with_settings : HttpParser ll → Allocated ll
  with_settings s = record {
    parser = s.parser;
    settings = some server_settings;
    request = some s.request;
  }

  -- What `http_parser_init` returns.
  abbrev pub initial_parser : HttpParser ll
  initial_parser = record {
    parser = if ll.is_closed ll.start then ll.reset ll.start else ll.start;
    request = fresh_request;
  }

  pub http_parser_init_lem : http_parser_init ll ≡ ok initial_parser
  unfolding http_parser_init http_parser_reset_request clear_request write_at overwrite
  http_parser_init_lem = refl

  unfoldable pub http_parser_close : Allocated ll → ℕ → Exec ℕ
  http_parser_close a live =
      free_pointer a.settings live >>= λ n. free_pointer a.request n >>= free_block

  -- Closing a parser gives back the three blocks that creating it took.
  pub http_parser_close-with_settings :
      (s : HttpParser ll) (live : ℕ) → http_parser_close (with_settings s) (live + 3) ≡ ok live
  unfolding http_parser_close free_block
  http_parser_close-with_settings s live = ground arith
