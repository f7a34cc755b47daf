-- ===== src/Controller/Response.antt =====
-- controller/cliente_controller.c: the JSON bodies and the answers with status 200.
use crinha.Prelude.{
  ℕ, ◌++◌, Option, none, some, List, [], ◌∷◌, codes, joined, length, ltb, if◌then◌else◌, Exec,
  fault, null_pointer,
}
use crinha.Prelude.Int.{ℤ, pos, wrap32}
use crinha.Clib.Memory.{sprintf, c_str}
use crinha.Clib.Decimal.{decimal, decimal_ℤ}
use crinha.Entity.{Cliente, Transacao}
use crinha.Router.{crlf}
use crinha.Controller.Jansson.{Jansson, PackArg, int, string, object}

abbrev pub max_buffer_find_by_id : ℕ
max_buffer_find_by_id = 2048

abbrev pub max_buffer_transacao_save : ℕ
max_buffer_transacao_save = 256

abbrev pub max_buffer_date_time_iso_str : ℕ
max_buffer_date_time_iso_str = 64

-- template_response_http_200_json with its length and body.
unfoldable pub http_200_json : List ℕ → List ℕ
unfolding decimal_ℤ wrap32
http_200_json body = joined (
    codes "HTTP/1.1 200 OK"
    ∷ crlf
    ∷ codes "Content-Type: application/json; charset=utf-8"
    ∷ crlf
    ∷ codes "Content-Length: "
    ∷ decimal_ℤ (wrap32 (pos (length body)))
    ∷ crlf
    ∷ crlf
    ∷ body
    ∷ [])

-- `strlen` of what `json_dumps` returned, and `sprintf` into a buffer of `cap` bytes.
unfoldable pub respond : ℕ → Option (List ℕ) → Exec (List ℕ)
unfolding http_200_json sprintf
respond cap none = fault null_pointer
respond cap (some body) = sprintf cap (http_200_json body)

-- `%06ld` of the microseconds.
unfoldable pub six_digits : ℕ → List ℕ
unfolding decimal
six_digits n =
    let s = decimal n in
    (if◌then◌else◌ (ltb n 10) (codes "00000") (
      if◌then◌else◌ (ltb n 100) (codes "0000") (
        if◌then◌else◌ (ltb n 1000) (codes "000") (
          if◌then◌else◌ (ltb n 10000) (codes "00") (if◌then◌else◌ (ltb n 100000) (codes "0") [])))))
    ++ s

-- The local time as `strftime` prints it by `%FT%T`, and the microseconds.
unfoldable pub current_time_as_iso_str : List ℕ × ℕ → Exec (List ℕ)
unfolding six_digits sprintf
current_time_as_iso_str (date, usec) =
    sprintf max_buffer_date_time_iso_str
      (joined (date ∷ codes "." ∷ six_digits usec ∷ codes "Z" ∷ []))

module _ (js : Jansson) where
  open js use {Json, pack, array, array_append_new}

  -- `i` takes an int: of the int64_t that is passed the low 32 bits arrive.
  abbrev pub pack_i : ℤ → PackArg Json
  pack_i n = int (wrap32 n)

  unfoldable pub build_json_saldo : Cliente → Option Json
  unfolding wrap32
  build_json_saldo c =
      pack ((codes "limite", pack_i c.limite) ∷ (codes "saldo", pack_i c.saldo) ∷ [])

  unfoldable pub build_json_saldo_data : Cliente → List ℕ → Option Json
  unfolding wrap32
  build_json_saldo_data c date = pack (
      (codes "total", pack_i c.saldo)
      ∷ (codes "data_extrato", string date)
      ∷ (codes "limite", pack_i c.limite)
      ∷ [])

  unfoldable pub build_json_transacao : Transacao → Option Json
  unfolding wrap32
  build_json_transacao t = pack (
      (codes "valor", pack_i t.valor)
      ∷ (codes "tipo", string (c_str t.tipo))
      ∷ (codes "descricao", string (c_str t.descricao))
      ∷ (codes "realizada_em", string (c_str t.realizada_em))
      ∷ [])

  -- The loop, on the transactions that are left.
  unfoldable pub append_transacoes : Option Json → List Transacao → Option Json
  unfolding build_json_transacao
  append_transacoes acc [] = acc
  append_transacoes acc (t ∷ ts) =
      append_transacoes (array_append_new acc (build_json_transacao t)) ts

  unfoldable pub build_json_transacoes : List Transacao → Option Json
  unfolding append_transacoes
  build_json_transacoes ts = append_transacoes array ts

  unfoldable pub build_json_extrato : Option Json → Option Json → Option Json
  build_json_extrato json_saldo json_transacoes = pack (
      (codes "saldo", object json_saldo)
      ∷ (codes "ultimas_transacoes", object json_transacoes)
      ∷ [])
