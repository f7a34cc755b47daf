-- ===== src/Tests/ServerRuns.antt =====
-- server/server.c with a table that has one client in it.
use crinha.Prelude.{
  ap, ℕ, zero, suc, ◌+◌, ◌≡◌, refl, Bool, true, false, none, some, List, [], ◌∷◌, replicate, codes,
  arith, ◌==◌, ◌&&◌, ==_iff, subst, ok, IsOk,
}
use crinha.Router.{no_routes, http_bad_request}
use crinha.HttpParser.Parser.{http_parser_parse, http_parser_get_method, run_callbacks}
use crinha.Server.Poll.{PollFd, poll_init, fill_free, poll_push}
use crinha.Server.Poll.Descriptors.{holds, AllPolled}
use crinha.Server.SocketRead.{Service}
use crinha.Server.Loop.{Server, poll_round, listening, set_revents}
use crinha.Server.Poll.Table.{Inv}
use crinha.Server.Loop.Invariant.{Serves, IsFresh, listed_count}
use crinha.Server.Loop.Rounds.{poll_round-Kept, here, next, Reach-Inv, listening-Inv}
use crinha.Server.SocketRead.Safety.{IsHandled, socket_read-IsValid}
use crinha.HttpParser.Buffers.{IsValid}
use crinha.Clib.Memory.{c_str}
use crinha.Router.Table.{router_route-table}
use crinha.Server.Outage.{serve_all, serve_all_refused}
use crinha.Tests.Toys.{toy_llhttp, toy_llhttp-Documented}
use crinha.Tests.ParserRuns.{fresh_request-IsValid, fresh, broken}

abbrev pub raw : List PollFd
raw = replicate 16 (record { fd = some 99; events = 7; revents = 7 })

abbrev pub service : Service toy_llhttp (Unit {0})
service = record { parser = fresh; app = tt; sent = [] }

-- The server before its first round, with one connection to come.
abbrev pub server : Server toy_llhttp (Unit {0})
server = record { table = listening 3 raw; service = service; closed = []; accepts = some 4 ∷ [] }

abbrev pub Ready : Service toy_llhttp (Unit {0}) → Type 0
Ready svc = IsValid svc.parser.request

pub service-Ready : Ready service
service-Ready = fresh_request-IsValid

no_routes-IsHandled :
    (chunk : List ℕ) (svc : Service toy_llhttp (Unit {0}))
    → IsHandled toy_llhttp (no_routes {S = Unit {0}}) chunk svc
unfolding http_parser_get_method
no_routes-IsHandled chunk svc p parsed whole = (
  (http_bad_request, tt),
  ap (λ m. m tt)
      (router_route-table [] 10 3 (c_str p.request.url) (some (c_str p.request.body)) refl),
)

-- Each client sends one request.
abbrev pub requests : ℕ → List (List ℕ)
requests k = codes "/clientes/1/extrato" ∷ []

pub requests-Serves : (k : ℕ) → Serves toy_llhttp (no_routes {S = Unit {0}}) 3 Ready (requests k)
requests-Serves k svc r =
    socket_read-IsValid toy_llhttp no_routes (requests k) svc (omega arith) r
      (no_routes-IsHandled (codes "/clientes/1/extrato") svc, λ s' e. tt)

abbrev pub idle : List ℕ
idle = 1 ∷ replicate 15 0

is_quiet : PollFd → Bool
is_quiet p = elim p.fd [ none ↦ p.revents == 0 | some fd ↦ true ]

are_quiet : List PollFd → Bool
unfolding is_quiet
are_quiet [] = true
are_quiet (p ∷ ps) = is_quiet p && are_quiet ps

both_true : (a b : Bool) → (a && b) ≡ true → (a ≡ true) × (b ≡ true)
both_true a b h = ground arith

quiet_revents : (p : PollFd) → is_quiet p ≡ true → p.fd ≡ none → p.revents ≡ 0
unfolding is_quiet
quiet_revents p h n = (==_iff p.revents 0).0 (rw (n, is_quiet) at h)

some_injective : {a b : PollFd} → some a ≡ some b → a ≡ b
some_injective h = cc

are_quiet-AllPolled : (ps : List PollFd) → are_quiet ps ≡ true → AllPolled 0 ps
unfolding are_quiet is_quiet
are_quiet-AllPolled [] h j p _ e n = cc
are_quiet-AllPolled (q ∷ ps) h zero p _ e n =
    let same : q ≡ p = some_injective e in
    quiet_revents p
      (subst (λ x. is_quiet x ≡ true) same (both_true (is_quiet q) (are_quiet ps) h).0) n
are_quiet-AllPolled (q ∷ ps) h (suc j) p _ e n =
    are_quiet-AllPolled ps (both_true (is_quiet q) (are_quiet ps) h).1 j p (omega arith) e n

pub polled : AllPolled 0 (set_revents idle (listening 3 raw).pfds)
unfolding set_revents listening poll_push poll_init fill_free are_quiet is_quiet
polled = are_quiet-AllPolled (set_revents idle (listening 3 raw).pfds) refl

pub server-IsFresh : IsFresh (listening 3 raw).pfds (some 4 ∷ [])
unfolding listening poll_push poll_init fill_free
server-IsFresh = refl

poll_round-Kept_example :
    (s' : Server toy_llhttp (Unit {0})) × (poll_round toy_llhttp no_routes idle requests server
      ≡ ok s')
    × Ready s'.service
    × Inv 3 s'.table
    × ((f : ℕ)
        → holds f s'.table.pfds + listed_count f s'.closed + listed_count f s'.accepts
          ≡ holds f (listening 3 raw).pfds + 0 + listed_count f (some 4 ∷ []))
poll_round-Kept_example =
    poll_round-Kept toy_llhttp no_routes 3 Ready idle requests server service-Ready
      (listening-Inv 3 raw refl) polled server-IsFresh requests-Serves

refused : http_parser_parse toy_llhttp fresh (codes "?") ≡ ok (broken, false)
unfolding http_parser_parse run_callbacks
refused = refl

serve_all_refused_example :
    (s' : Service toy_llhttp (Unit {0})) × (serve_all toy_llhttp no_routes
        ((codes "?" ∷ []) ∷ (codes "/clientes" ∷ []) ∷ [])
        service
      ≡ ok s')
    × (s'.sent ≡ [])
    × (s'.app ≡ tt)
serve_all_refused_example =
    serve_all_refused toy_llhttp no_routes toy_llhttp-Documented service (codes "?") []
      ((codes "/clientes" ∷ []) ∷ []) {p = broken} fresh_request-IsValid refused (omega arith)

one_round : IsOk (poll_round toy_llhttp no_routes idle requests server)
one_round =
    let (s', e, _, _, _) =
      poll_round-Kept toy_llhttp no_routes 3 Ready idle requests server service-Ready
        (listening-Inv 3 raw refl) polled server-IsFresh requests-Serves in
    (s', e)

Reach-Inv_example :
    Ready one_round.0.service
    × Inv 3 one_round.0.table
    × ((f : ℕ)
        → holds f one_round.0.table.pfds
            + listed_count f one_round.0.closed
            + listed_count f one_round.0.accepts
          ≡ holds f server.table.pfds
            + listed_count f server.closed
            + listed_count f server.accepts)
Reach-Inv_example =
    Reach-Inv toy_llhttp no_routes 3 Ready {s = server} {t = one_round.0} service-Ready
      (listening-Inv 3 raw refl)
      (next idle requests here polled server-IsFresh requests-Serves one_round.1)
