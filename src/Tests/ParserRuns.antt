-- ===== src/Tests/ParserRuns.antt =====
-- server/http_parser.c and util/string_util.c on concrete bytes.
use crinha.Prelude.{◌≡◌, refl, Bool, [], ◌∷◌, codes, arith, ok}
use crinha.Util.StringUtil.{string_util_utf8_strlen}
use crinha.Util.StringUtil.Utf8.{encode_all, utf8_strlen-encode_all}
use crinha.HttpParser.Request.{fresh_request}
use crinha.HttpParser.Parser.{HttpParser, http_parser_parse}
use crinha.HttpParser.Buffers.{IsValid, http_parser_parse-IsValid}
use crinha.Tests.Toys.{toy_llhttp}

pub fresh_request-IsValid : IsValid fresh_request
fresh_request-IsValid = record {
  url_size = refl;
  url_string = omega arith;
  body_size = refl;
  body_string = omega arith;
}

abbrev pub fresh : HttpParser toy_llhttp
fresh = record { parser = 0; request = fresh_request }

abbrev pub broken : HttpParser toy_llhttp
broken = record { parser = 2; request = fresh_request }

http_parser_parse-IsValid_example :
    (s' : HttpParser toy_llhttp) × (parsed : Bool) × (http_parser_parse toy_llhttp fresh
        (codes "/clientes/7/extrato")
      ≡ ok (s', parsed))
    × IsValid s'.request
http_parser_parse-IsValid_example =
    http_parser_parse-IsValid toy_llhttp fresh (codes "/clientes/7/extrato") fresh_request-IsValid

-- "ação"
utf8_strlen-encode_all_example :
    string_util_utf8_strlen (encode_all (97 ∷ 231 ∷ 227 ∷ 111 ∷ [])) ≡ 4
utf8_strlen-encode_all_example = utf8_strlen-encode_all (97 ∷ 231 ∷ 227 ∷ 111 ∷ []) (omega arith)
