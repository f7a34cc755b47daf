-- ===== src/HttpParser/Request.antt =====
-- server/http_parser.h and the callbacks of server/http_parser.c.
use crinha.Prelude.{
  ℕ, ◌+◌, leb, ltb, if◌then◌else◌, Bool, true, false, List, [], ◌∷◌, length, replicate, Exec, ok,
  ◌>>=◌,
}
use crinha.Clib.Memory.{strlen, write_at}
use crinha.Util.StringUtil.{strzcpy}
use crinha.HttpParser.Llhttp.{Event, on_url, on_body, on_message_complete}

abbrev pub http_request_url_buffer_size : ℕ
http_request_url_buffer_size = 256

abbrev pub http_request_body_buffer_size : ℕ
http_request_body_buffer_size = 1024

-- The arrays have one byte more.
pub record HttpRequest : Type 0 where
  pub url : List ℕ
  pub body : List ℕ
  pub complete : Bool

-- A callback returns the request and its result.
unfoldable pub handle_on_url : HttpRequest → List ℕ → Exec (HttpRequest × ℕ)
unfolding strzcpy
handle_on_url r at =
    let current_url_len = strlen r.url in
    if leb http_request_url_buffer_size (length at + current_url_len) then ok (r, 1) else (do
      copied ← strzcpy r.url current_url_len at (length at)
      url ← write_at copied (length at + current_url_len) (0 ∷ [])
      ok (record r { url = url }, 0))

unfoldable pub handle_on_body : HttpRequest → List ℕ → Exec (HttpRequest × ℕ)
unfolding strzcpy
handle_on_body r at =
    let current_body_len = strlen r.body in
    if ltb http_request_body_buffer_size (length at + current_body_len) then ok (r, 1) else (do
      copied ← strzcpy r.body current_body_len at (length at)
      body ← write_at copied (length at + current_body_len) (0 ∷ [])
      ok (record r { body = body }, 0))

unfoldable pub handle_on_message_complete : HttpRequest → HttpRequest × ℕ
handle_on_message_complete r = (record r { complete = true }, 0)

unfoldable pub handle : Event → HttpRequest → Exec (HttpRequest × ℕ)
unfolding handle_on_url handle_on_body handle_on_message_complete
handle (on_url at) r = handle_on_url r at
handle (on_body at) r = handle_on_body r at
handle on_message_complete r = ok (handle_on_message_complete r)

-- The fields that `http_parser_reset_request` sets.
unfoldable pub clear_request : HttpRequest → Exec HttpRequest
clear_request r = do
  url ← write_at r.url 0 (0 ∷ [])
  body ← write_at r.body 0 (0 ∷ [])
  ok (record { url = url; body = body; complete = false })

-- A block of `malloc`, here of zeros: its bytes are unspecified in C, and `clear_request` sets the first
-- one of each string.
abbrev pub fresh_request : HttpRequest
fresh_request = record {
  url = replicate (http_request_url_buffer_size + 1) 0;
  body = replicate (http_request_body_buffer_size + 1) 0;
  complete = false;
}
