-- ===== src/Server/Outage.antt =====
-- server/server.c: reading sockets with one parser for all of them.
use crinha.Prelude.{
  ℕ, ◌<◌, ◌≡◌, refl, sym, ap, ◌∙◌, Bool, false, List, [], ◌∷◌, length, arith, Exec, ok, ◌>>=◌,
  ok_injective, subst,
}
use crinha.Router.{Routes}
use crinha.HttpParser.Llhttp.{Llhttp}
use crinha.HttpParser.Parser.{HttpParser, http_parser_parse}
use crinha.HttpParser.Buffers.{IsValid, http_parser_parse-IsValid}
use crinha.HttpParser.Failure.{
  Documented, HasFailed, http_parser_parse-HasFailed, HasFailed-http_parser_parse,
}
use crinha.Server.SocketRead.Safety.{AllShort}
use crinha.Server.SocketRead.{Service, read_chunk, socket_read}

abbrev pub AllConnections : List (List (List ℕ)) → Type 0
AllConnections [] = Unit {0}
AllConnections (c ∷ cs) = AllShort c × AllConnections cs

module _ (ll : Llhttp) {S : Type 0} (routes : Routes S) where
  -- One connection after another.
  unfoldable pub serve_all : List (List (List ℕ)) → Service ll S → Exec (Service ll S)
  serve_all [] s = ok s
  serve_all (c ∷ cs) s = socket_read ll routes c s >>= serve_all cs

  pub record IsDown (before s : Service ll S) : Type 0 where
    pub valid : IsValid s.parser.request
    pub failed : HasFailed ll s.parser
    pub same_sent : s.sent ≡ before.sent
    pub same_app : s.app ≡ before.app

  abbrev StaysDown : Service ll S → Exec (Service ll S) → Type 0
  StaysDown before m = (s' : Service ll S) × (m ≡ ok s') × IsDown before s'

  module _ (doc : Documented ll) (before : Service ll S) where
    read_chunk-IsDown :
        (chunk : List ℕ) (s : Service ll S)
        → length chunk < 1024
        → IsDown before s
        → StaysDown before (read_chunk ll routes chunk s)
    unfolding read_chunk
    read_chunk-IsDown chunk s h d =
        let (p, e, f, v) = HasFailed-http_parser_parse ll doc s.parser chunk d.valid d.failed in
        (
          record s { parser = p },
          ground (arith, e),
          record { valid = v; failed = f; same_sent = d.same_sent; same_app = d.same_app },
        )

    socket_read-IsDown :
        (chunks : List (List ℕ)) (s : Service ll S)
        → AllShort chunks
        → IsDown before s
        → StaysDown before (socket_read ll routes chunks s)
    unfolding socket_read
    socket_read-IsDown [] s h d = (s, refl, d)
    socket_read-IsDown (c ∷ cs) s h d =
        let (s', e, d') = read_chunk-IsDown c s h.0 d in
        let (s'', e', d'') = socket_read-IsDown cs s' h.1 d' in (s'', rw (e, socket_read) e', d'')

    serve_all-IsDown :
        (conns : List (List (List ℕ))) (s : Service ll S)
        → AllConnections conns
        → IsDown before s
        → StaysDown before (serve_all conns s)
    unfolding serve_all
    serve_all-IsDown [] s h d = (s, refl, d)
    serve_all-IsDown (c ∷ cs) s h d =
        let (s', e, d') = socket_read-IsDown c s h.0 d in
        let (s'', e', d'') = serve_all-IsDown cs s' h.1 d' in (s'', rw (e, serve_all) e', d'')

  refused :
      (chunk : List ℕ) (s : Service ll S) {p : HttpParser ll}
      → http_parser_parse ll s.parser chunk ≡ ok (p, false)
      → length chunk < 1024
      → read_chunk ll routes chunk s ≡ ok (record s { parser = p })
  unfolding read_chunk
  refused chunk s e h = ground (arith, e)

  socket_read_first :
      (chunk : List ℕ) (chunks : List (List ℕ)) (s : Service ll S) {s' : Service ll S}
      → read_chunk ll routes chunk s ≡ ok s'
      → socket_read ll routes (chunk ∷ chunks) s ≡ socket_read ll routes chunks s'
  unfolding socket_read
  socket_read_first chunk chunks s e = rw (e, socket_read)

  parsed-IsValid :
      (s : HttpParser ll) (text : List ℕ) {p : HttpParser ll} {b : Bool}
      → IsValid s.request
      → http_parser_parse ll s text ≡ ok (p, b)
      → IsValid p.request
  parsed-IsValid s text v e =
      let (s', b', e', v') = http_parser_parse-IsValid ll s text v in
      subst (λ (t : HttpParser ll × Bool). IsValid t.0.request) (ok_injective (sym e' ∙ e)) v'

  -- One chunk that llhttp refuses puts the server out of service: it answers nothing more on that
  -- connection, nor any request of the connections after it, and no handler runs. (The reads are
  -- shorter than the buffer.)
  pub serve_all_refused :
      (doc : Documented ll) (s : Service ll S) (chunk : List ℕ) (chunks : List (List ℕ))
      (conns : List (List (List ℕ))) {p : HttpParser ll}
      → IsValid s.parser.request
      → http_parser_parse ll s.parser chunk ≡ ok (p, false)
      → AllConnections ((chunk ∷ chunks) ∷ conns)
      → (s' : Service ll S) × (serve_all ((chunk ∷ chunks) ∷ conns) s ≡ ok s')
        × (s'.sent ≡ s.sent)
        × (s'.app ≡ s.app)
  unfolding serve_all
  serve_all_refused doc s chunk chunks conns {p} v e short =
      let down : IsDown s (record s { parser = p }) = record {
        valid = parsed-IsValid s.parser chunk v e;
        failed = http_parser_parse-HasFailed ll doc s.parser chunk v e;
        same_sent = refl;
        same_app = refl;
      } in
      let (s', e', d') =
        serve_all-IsDown doc s (chunks ∷ conns) (record s { parser = p }) (short.0.1, short.1)
          down in
      let first = socket_read_first chunk chunks s (refused chunk s e short.0.0) in
      (s', ap (λ m. m >>= serve_all conns) first ∙ e', d'.same_sent, d'.same_app)
