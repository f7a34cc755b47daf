-- ===== src/Library/Llhttp/ParserType.antt =====
-- include/llhttp.h: what a parser expects. The server's parser expects requests.
use crinha.Prelude.{ℕ}

pub data LlhttpType : Type 0 where
  http_both http_request http_response : LlhttpType

abbrev pub type_value : LlhttpType → ℕ
type_value http_both = 0
type_value http_request = 1
type_value http_response = 2
