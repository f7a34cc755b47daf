-- ===== src/Account/Service.antt =====
-- server/server.c with the routes of controller/cliente_controller.c: from the bytes of a request to
-- the answer that is sent.
use crinha.Prelude.{
  ℕ, ◌^◌, ◌≤◌, ◌<◌, ◌≡◌, refl, ap, ◌∙◌, true, some, List, [], ◌∷◌, ◌++◌, codes, length,
  length-append, ok, arith,
}
use crinha.Prelude.Int.{IsInt64, neg_ℤ, ◌≤ℤ◌}
use crinha.Clib.Memory.{c_str, IsText}
use crinha.Clib.Decimal.{decimal, atoi}
use crinha.Clib.Decimal.RoundTrip.{AllDigits, AllDigits-IsText, decimal-AllDigits, decimal-length}
use crinha.Clib.Regex.Matching.{AllIn}
use crinha.Clib.Regex.{in_set}
use crinha.Entity.{Cliente, Transacao}
use crinha.Db.Libpq.{Libpq, Drains}
use crinha.Db.State.{Db}
use crinha.Router.{router_route, http_post}
use crinha.HttpParser.Llhttp.{Llhttp, hpe_ok}
use crinha.HttpParser.Parser.{resumed, http_parser_get_method, http_parser_request_is_complete}
use crinha.HttpParser.Buffers.{http_parser_reset_request-IsValid}
use crinha.HttpParser.Delivery.{Delivers, whole_request, Holds, IsCleared, http_parser_parse-Holds}
use crinha.Controller.Jansson.{Jansson}
use crinha.Controller.Url.Param.{transacoes, url_of, id_set}
use crinha.Controller.Handlers.{nova_transacao}
use crinha.Controller.Handlers.Fields.{AreValid}
use crinha.Controller.Handlers.Requests.{valor_of, tipo_of, descricao_of}
use crinha.Controller.Handlers.Routing.{routes, router_route-handlers}
use crinha.Server.SocketRead.{Service, answer, read_chunk}
use crinha.Account.{balance, SaveStep}
use crinha.Account.Bank.{Bank, IsPostable}
use crinha.Account.Reply.{Prints}
use crinha.Account.Saving.{is_sent, save-SaveStep}

digit_in : (c : ℕ) → AllDigits (c ∷ []) → in_set id_set c ≡ true
digit_in c h = ground (arith, h.0)

AllDigits-AllIn : (p : List ℕ) → AllDigits p → AllIn id_set p
AllDigits-AllIn [] h = tt
AllDigits-AllIn (c ∷ cs) h = (digit_in c (h.0, tt), AllDigits-AllIn cs h.1)

IsText-append : (a b : List ℕ) → IsText a → IsText b → IsText (a ++ b)
IsText-append [] b h k = k
IsText-append (x ∷ a) b h k = (h.0, IsText-append a b h.1 k)

-- The URL under which a client's transactions are posted.
abbrev pub client_url : ℕ → List ℕ
client_url n = url_of (decimal n) transacoes

client_url-IsText : (n : ℕ) → IsText (client_url n)
client_url-IsText n =
    IsText-append (codes "/clientes/") (decimal n ++ codes "/transacoes") (ground arith) (
      IsText-append (decimal n) (codes "/transacoes")
        (AllDigits-IsText (decimal n) (decimal-AllDigits n)) (ground arith))

client_url-length : (n : ℕ) → n < 10 ^ 9 → length (client_url n) < 256
client_url-length n h =
    omega (arith, length-append (decimal n) (codes "/transacoes"), decimal-length n 8 h)

module _ (ll : Llhttp) (js : Jansson) (pq : Libpq) (local_time : pq.World → List ℕ × ℕ)
    (drains : Drains pq) (prints : Prints js) where
  -- A complete request that posts a valid transaction: it is routed, answered and cleared.
  answer-SaveStep :
      (s : Service ll (Db pq)) (bank : Bank pq s.app.pool) (n : ℕ) (small : n < 10 ^ 9)
      (text : List ℕ)
      (valid : AreValid js (valor_of js pq text) (tipo_of js pq text) (descricao_of js pq text))
      (t : Transacao)
      → nova_transacao js
          (atoi (decimal n))
          (valor_of js pq text)
          (tipo_of js pq text)
          (descricao_of js pq text)
        ≡ ok t
      → IsPostable t
      → ((c : Cliente)
          → bank.rows s.app.world n ≡ some c
          → (neg_ℤ c.limite ≤ℤ c.saldo) × IsInt64 (balance c t))
      → ll.method s.parser.parser ≡ http_post
      → Holds (client_url n) text s.parser.request
      → (reply : List ℕ) × (s' : Service ll (Db pq)) × (answer ll (routes js pq local_time) s
          ≡ ok s')
        × (s'.sent ≡ reply ∷ s.sent)
        × (s'.app.live ≡ s.app.live)
        × SaveStep n t
            (bank.rows s.app.world)
            (bank.rows s'.app.world)
            (is_sent pq drains s.app n t)
            reply
        × IsCleared s'.parser.request
  unfolding answer http_parser_get_method
  answer-SaveStep s bank n small text valid t made postable sound post holds =
      let (reply, d', e, _, live, step) =
        save-SaveStep js pq drains prints s.app bank n small text valid t made postable sound in
      let (p, e', v, no_url, no_body, unfinished) =
        http_parser_reset_request-IsValid ll s.parser holds.valid in
      let table = routes js pq local_time in
      let routed =
        ap
          (λ m.
            router_route table m (c_str s.parser.request.url) (some (c_str s.parser.request.body))
              s.app)
          post
        ∙ ap (λ u. router_route table http_post u (some (c_str s.parser.request.body)) s.app)
            holds.url_is
        ∙ ap (λ b. router_route table http_post (client_url n) (some b) s.app) holds.body_is
        ∙ ap (λ m. m s.app)
            (router_route-handlers js pq local_time (decimal n) (some text)
              (AllDigits-AllIn (decimal n) (decimal-AllDigits n))).1
        ∙ e in
      (
        reply,
        record { parser = p; app = d'; sent = reply ∷ s.sent },
        rw (routed, answer) (rw e' refl),
        refl,
        live,
        step,
        record { valid = v; no_url = no_url; no_body = no_body; unfinished = unfinished },
      )

  -- A client's request, from its bytes to its answer: read in one piece that llhttp takes for a POST of
  -- a valid transaction to the client's URL, it is answered by exactly one text, as the specification of
  -- accounts says; the database's table is then as that step leaves it, no block is kept, and the
  -- parser's request is cleared for the next one. (The piece is shorter than the buffer, the request was
  -- cleared before, and the conditions on transaction, client, database and libraries are those of the
  -- theorem for one request of the handler.)
  pub read_chunk-SaveStep :
      (s : Service ll (Db pq)) (bank : Bank pq s.app.pool) (n : ℕ) (small : n < 10 ^ 9)
      (text : List ℕ)
      (valid : AreValid js (valor_of js pq text) (tipo_of js pq text) (descricao_of js pq text))
      (t : Transacao) (chunk : List ℕ) {p : ll.P}
      → nova_transacao js
          (atoi (decimal n))
          (valor_of js pq text)
          (tipo_of js pq text)
          (descricao_of js pq text)
        ≡ ok t
      → IsPostable t
      → ((c : Cliente)
          → bank.rows s.app.world n ≡ some c
          → (neg_ℤ c.limite ≤ℤ c.saldo) × IsInt64 (balance c t))
      → length chunk < 1024
      → IsCleared s.parser.request
      → IsText text
      → length text ≤ 1024
      → Delivers
          (ll.execute (resumed ll s.parser.parser) chunk)
          (whole_request (client_url n) text)
          p
          hpe_ok
      → ll.method p ≡ http_post
      → (reply : List ℕ) × (s' : Service ll (Db pq)) × (read_chunk ll
            (routes js pq local_time)
            chunk
            s
          ≡ ok s')
        × (s'.sent ≡ reply ∷ s.sent)
        × (s'.app.live ≡ s.app.live)
        × SaveStep n t
            (bank.rows s.app.world)
            (bank.rows s'.app.world)
            (is_sent pq drains s.app n t)
            reply
        × IsCleared s'.parser.request
  unfolding read_chunk http_parser_request_is_complete
  read_chunk-SaveStep s bank n small text valid t chunk {p} made postable sound short cleared
        is_text fits delivers post =
      let (out, parsed, holds) =
        http_parser_parse-Holds ll s.parser chunk [] (client_url n) text cleared.valid
          cleared.no_url cleared.no_body (client_url-IsText n) is_text
          (omega (arith, client_url-length n small)) fits delivers in
      let (reply, s', e, sent, live, step, after) =
        answer-SaveStep (record s { parser = record { parser = p; request = out } }) bank n small
          text valid t made postable sound post holds in
      (reply, s', ground (arith, parsed, holds.complete, e), sent, live, step, after)
