-- ===== src/Tests/RequestRuns.antt =====
-- A request from its bytes to its answer.
use crinha.Prelude.{
  if◌then◌else◌, ◌==◌, Bool, true, false, some, ap, ℕ, ◌≡◌, refl, List, [], ◌∷◌, codes, ok, arith,
  IsOk, ◌↔◌, length, ◌<◌,
}
use crinha.Clib.Decimal.{decimal, digits}
use crinha.Db.State.{Db}
use crinha.HttpParser.Llhttp.{
  Llhttp, Run, returns, calls, on_url, on_body, on_message_complete, hpe_ok,
}
use crinha.HttpParser.Parser.{resumed}
use crinha.HttpParser.Request.{fresh_request}
use crinha.HttpParser.Delivery.{Delivers, ends, reports, whole_request, IsCleared}
use crinha.Controller.Handlers.Routing.{routes}
use crinha.Server.SocketRead.{Service, read_chunk, socket_read}
use crinha.Server.SocketRead.Leftover.{socket_read-mixed}
use crinha.Server.SocketRead.Safety.{IsHandled, read_chunk-IsOk_iff, socket_read-IsValid}
use crinha.HttpParser.Buffers.{IsValid}
use crinha.Router.{Routes, no_routes, http_bad_request}
use crinha.Router.Table.{router_route-table}
use crinha.Account.{SaveStep, Table}
use crinha.Account.Service.{client_url, read_chunk-SaveStep}
use crinha.Tests.Toys.{toy_llhttp}
use crinha.Tests.DbRuns.{debit}
use crinha.Tests.ParserRuns.{fresh_request-IsValid}
use crinha.Tests.BankSql.{until, beyond}
use crinha.Tests.BankDb.{bank_libpq, bank_libpq-Drains, bank_libpq-Bank, bank_rows}
use crinha.Tests.AccountRuns.{
  bank_jansson, bank_jansson-Prints, bank, accounts, fields-AreValid, made, debit-IsPostable, sound,
}

-- A parser for which a text is a URL, a blank, and the body of a POST.
post_run : List ℕ → Run ℕ
unfolding until beyond
post_run text =
    calls (on_url (until 32 text))
      λ _. calls (on_body (beyond 32 text)) λ _. calls on_message_complete λ _. returns 0 0

abbrev post_llhttp : Llhttp
post_llhttp = record toy_llhttp { P = ℕ; execute = λ p text. post_run text }

abbrev chunk : List ℕ
chunk = codes "/clientes/7/transacoes 1"

delivered :
    Delivers
      (post_llhttp.execute (resumed post_llhttp 0) chunk)
      (whole_request (client_url 7) (codes "1"))
      0
      hpe_ok
unfolding post_run until beyond decimal digits
delivered = reports (reports (reports ends))

abbrev service : Service post_llhttp (Db bank_libpq)
service = record { parser = record { parser = 0; request = fresh_request }; app = bank; sent = [] }

abbrev clock : Table → List ℕ × ℕ
clock w = (codes "2024-02-01T00:00:00", 0)

cleared : IsCleared fresh_request
cleared = record { valid = fresh_request-IsValid; no_url = refl; no_body = refl; unfinished = refl }

read_chunk-SaveStep_example :
    (reply : List ℕ) × (s' : Service post_llhttp (Db bank_libpq)) × (read_chunk post_llhttp
        (routes bank_jansson bank_libpq clock)
        chunk
        service
      ≡ ok s')
    × (s'.sent ≡ reply ∷ [])
    × (s'.app.live ≡ 0)
    × SaveStep 7 debit (bank_rows accounts) (bank_rows s'.app.world) true reply
    × IsCleared s'.parser.request
read_chunk-SaveStep_example =
    read_chunk-SaveStep post_llhttp bank_jansson bank_libpq clock bank_libpq-Drains
      bank_jansson-Prints service bank_libpq-Bank 7 (omega arith) (codes "1") fields-AreValid debit
      chunk made debit-IsPostable sound (omega arith) cleared (omega arith, tt) (omega arith)
      delivered refl

abbrev bank_routes : Routes (Db bank_libpq)
bank_routes = routes bank_jansson bank_libpq clock

read_chunk-IsOk_iff_example :
    IsOk (read_chunk post_llhttp bank_routes chunk service)
    ↔ ((length chunk < 1024) × IsHandled post_llhttp bank_routes chunk service)
read_chunk-IsOk_iff_example =
    read_chunk-IsOk_iff post_llhttp bank_routes chunk service fresh_request-IsValid

-- The transaction that the bytes post is answered.
chunk_served : IsOk (read_chunk post_llhttp bank_routes chunk service)
chunk_served =
    let (_, s', e, _, _, _, _) =
      read_chunk-SaveStep post_llhttp bank_jansson bank_libpq clock bank_libpq-Drains
        bank_jansson-Prints service bank_libpq-Bank 7 (omega arith) (codes "1") fields-AreValid
        debit chunk made debit-IsPostable sound (omega arith) cleared (omega arith, tt)
        (omega arith) delivered refl in
    (s', e)

chunk-IsHandled : IsHandled post_llhttp bank_routes chunk service
chunk-IsHandled =
    let (to, from) =
      read_chunk-IsOk_iff post_llhttp bank_routes chunk service fresh_request-IsValid in
    (to chunk_served).1

socket_read-IsValid_example :
    (s' : Service post_llhttp (Db bank_libpq)) × (socket_read post_llhttp bank_routes
        (chunk ∷ [])
        service
      ≡ ok s')
    × IsValid s'.parser.request
socket_read-IsValid_example =
    socket_read-IsValid post_llhttp bank_routes (chunk ∷ []) service (omega arith, tt)
      fresh_request-IsValid (chunk-IsHandled, λ s' e. tt)

-- A text without a blank is a piece of a URL.
piece_run : List ℕ → Run ℕ
unfolding post_run until beyond
piece_run text = if is_blank_in text then post_run text else calls (on_url text) λ _. returns 0 0
  where
    is_blank_in : List ℕ → Bool
    is_blank_in [] = false
    is_blank_in (c ∷ cs) = let rest = is_blank_in cs in if c == 32 then true else rest

abbrev piece_llhttp : Llhttp
piece_llhttp = record toy_llhttp { P = ℕ; execute = λ p text. piece_run text }

abbrev first : List ℕ
first = codes "/clientes/7"

abbrev second : List ℕ
second = codes "/transacoes 1"

first_delivered :
    Delivers (piece_llhttp.execute (resumed piece_llhttp 0) first) (on_url first ∷ []) 0 hpe_ok
unfolding piece_run
first_delivered = reports ends

second_delivered :
    Delivers
      (piece_llhttp.execute (resumed piece_llhttp 0) second)
      (whole_request (codes "/transacoes") (codes "1"))
      0
      hpe_ok
unfolding piece_run post_run until beyond
second_delivered = reports (reports (reports ends))

abbrev idle : Service piece_llhttp (Unit {0})
idle = record { parser = record { parser = 0; request = fresh_request }; app = tt; sent = [] }

socket_read-mixed_example :
    (s' s'' : Service piece_llhttp (Unit {0})) × (socket_read piece_llhttp
        (no_routes {S = Unit {0}})
        (first ∷ [])
        idle
      ≡ ok s')
    × (s'.sent ≡ [])
    × (socket_read piece_llhttp (no_routes {S = Unit {0}}) (second ∷ []) s' ≡ ok s'')
    × (s''.sent ≡ http_bad_request ∷ [])
    × (s''.app ≡ tt)
socket_read-mixed_example =
    socket_read-mixed piece_llhttp (no_routes {S = Unit {0}}) idle first second first
      (codes "/transacoes") (codes "1") http_bad_request tt {p = 0} {q = 0} cleared (omega arith)
      (omega arith) (ground arith) (ground arith) (omega arith, tt) (omega arith) (omega arith)
      first_delivered second_delivered
      (ap (λ m. m tt)
        (router_route-table [] 10 3 (codes "/clientes/7/transacoes") (some (codes "1")) refl))
