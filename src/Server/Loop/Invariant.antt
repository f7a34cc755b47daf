-- ===== src/Server/Loop/Invariant.antt =====
-- server/server.c: the poll table through the rounds of `socket_loop`.
use crinha.Prelude.{
  ℕ, zero, suc, ◌+◌, ◌<◌, ◌≡◌, refl, ap, ◌∙◌, ◌==◌, leb, Bool-cases, inl, inr, ◌≢◌, Option, none,
  some, Option-cases, List, [], ◌∷◌, length, get_elem?, arith, Exec, ok,
}
use native.Mathlib.Nat.{le_refl}
use crinha.Router.{Routes}
use crinha.HttpParser.Llhttp.{Llhttp}
use crinha.Server.Poll.{PollFd, same_fd, socket_max_poll}
use crinha.Server.Poll.Descriptors.{one_if, holds, AllPolled, holds-get_elem?, holds_twice}
use crinha.Server.SocketRead.{Service, socket_read}
use crinha.Server.Loop.{Server, take_outcome, take_connection, drop_connection, visit, has_input}
use crinha.Server.Poll.Table.{Inv, poll_push-Inv, poll_pop-Inv, listening-first}

-- How often a descriptor stands in a list of outcomes or of closed descriptors.
abbrev pub listed_count : ℕ → List (Option ℕ) → ℕ
listed_count f [] = 0
listed_count f (a ∷ rest) = one_if (same_fd a (some f)) + listed_count f rest

-- A descriptor that `accept` returns is not in use.
abbrev pub IsFresh : List PollFd → List (Option ℕ) → Type 0
IsFresh ps [] = Unit {0}
IsFresh ps (none ∷ rest) = Unit {0}
IsFresh ps (some fd ∷ rest) = holds fd ps ≡ 0

module _ (ll : Llhttp) {S : Type 0} (routes : Routes S) (sock : ℕ) where
  -- From `s` to `s'` the table stays as it should, and each descriptor that was polled or accepted
  -- is polled or closed: none leaks. The entries from `i` on are as `poll` left them.
  pub record Kept (i : ℕ) (s s' : Server ll S) : Type 0 where
    pub inv : Inv sock s'.table
    pub polled : AllPolled i s'.table.pfds
    pub conserved :
        (f : ℕ)
        → holds f s'.table.pfds + listed_count f s'.closed + listed_count f s'.accepts
          ≡ holds f s.table.pfds + listed_count f s.closed + listed_count f s.accepts

  Kept-skip :
      (i : ℕ) (s : Server ll S) → Inv sock s.table → AllPolled i s.table.pfds → Kept (suc i) s s
  Kept-skip i s v a = record {
    inv = v;
    polled = λ j p h. a j p (omega arith);
    conserved = λ f. refl;
  }

  take_outcome-Kept :
      (s : Server ll S) (l : List (Option ℕ))
      → s.accepts ≡ l
      → Inv sock s.table
      → AllPolled 0 s.table.pfds
      → s.table.nfds < 16
      → IsFresh s.table.pfds l
      → Kept 1 s (take_outcome ll s l)
  take_outcome-Kept s [] e v a room fresh = Kept-skip 0 s v a
  take_outcome-Kept s (none ∷ rest) e v a room fresh = record {
    inv = v;
    polled = λ j p h. a j p (omega arith);
    conserved = λ f. omega (arith, ap (listed_count f) e);
  }
  take_outcome-Kept s (some fd ∷ rest) e v a room fresh =
      let (v', held, polled) = poll_push-Inv sock s.table fd v room fresh in
      record {
        inv = v';
        polled = λ j p h. polled 0 a j p (omega arith);
        conserved = λ f. ground (arith, held f, ap (listed_count f) e);
      }

  drop_connection-Kept :
      (i fd : ℕ) (s : Server ll S) (p : PollFd)
      → Inv sock s.table
      → AllPolled (suc i) s.table.pfds
      → get_elem? s.table.pfds (suc i) ≡ some p
      → p.fd ≡ some fd
      → Kept (suc (suc i)) s (drop_connection ll (some fd) s)
  unfolding drop_connection
  drop_connection-Kept i fd s p v a here e =
      let one = holds-get_elem? fd s.table.pfds (suc i) p here e in
      let (p0, first, is_sock) = listening-first sock s.table.pfds v.is_listening in
      let other : fd ≢ sock = λ same. absurd (
        omega (
          arith,
          v.distinct sock,
          holds_twice sock s.table.pfds 0 (suc i) p0 p (omega arith) first is_sock here
              (e ∙ ap some same),
        )) in
      let (v', held, kept) = poll_pop-Inv sock s.table fd v other one in
      record {
        inv = v';
        polled = λ j q h found n. elim (kept j q found) [
          | inl old ↦ a j q (omega arith) old n
          | inr (r, old, twice) ↦ absurd (
              omega (
                arith,
                holds_twice fd s.table.pfds (suc i) j p r (omega arith) here e old twice,
                v.distinct fd,
              ))
        ];
        conserved = λ f. ground (arith, held f);
      }

  get_elem?-lt :
      (ps : List PollFd) (i : ℕ) → i < length ps → (p : PollFd) × (get_elem? ps i ≡ some p)
  get_elem?-lt [] i h = elim h [ ]
  get_elem?-lt (p ∷ ps) zero h = (p, refl)
  get_elem?-lt (p ∷ ps) (suc i) h = get_elem?-lt ps i (omega arith)

  -- `Ready` is what must hold of the service between two reads of a socket.
  module _ (Ready : Service ll S → Type 0) where
    -- Reading the socket ends without a fault, and leaves a service that is ready.
    abbrev pub Serves : List (List ℕ) → Type 0
    Serves chunks =
        (svc : Service ll S)
        → Ready svc
        → (svc' : Service ll S) × (socket_read ll routes chunks svc ≡ ok svc') × Ready svc'

    abbrev pub Goes : ℕ → Server ll S → Exec (Server ll S) → Type 0
    Goes i s m = (s' : Server ll S) × (m ≡ ok s') × Kept i s s' × Ready s'.service

    take_outcome-Ready :
        (s : Server ll S) (l : List (Option ℕ))
        → Ready s.service
        → Ready (take_outcome ll s l).service
    take_outcome-Ready s [] r = r
    take_outcome-Ready s (none ∷ rest) r = r
    take_outcome-Ready s (some fd ∷ rest) r = r

    pub visit-zero :
        (chunks : List (List ℕ)) (s : Server ll S)
        → Ready s.service
        → Inv sock s.table
        → AllPolled 0 s.table.pfds
        → IsFresh s.table.pfds s.accepts
        → Goes 1 s (visit ll routes 0 chunks s)
    unfolding visit take_connection
    visit-zero chunks s ready v a fresh =
        let (p, here) = get_elem?-lt s.table.pfds 0 (omega (arith, v.size)) in
        elim (Bool-cases (p.revents == 0)) [
          | inl idle ↦ (s, ground arith, Kept-skip 0 s v a, ready)
          | inr busy ↦ elim (Bool-cases (has_input p.revents)) [
            | inr other ↦ (s, ground arith, Kept-skip 0 s v a, ready)
            | inl input ↦ elim (Bool-cases (leb socket_max_poll s.table.nfds)) [
              | inl full ↦ (s, ground arith, Kept-skip 0 s v a, ready)
              | inr room ↦ (
                take_connection ll s,
                ground arith,
                take_outcome-Kept s s.accepts refl v a (ground arith) fresh,
                take_outcome-Ready s s.accepts ready,
              )
            ]
          ]
        ]

    pub visit-suc :
        (i : ℕ) (chunks : List (List ℕ)) (s : Server ll S)
        → suc i < 16
        → Serves chunks
        → Ready s.service
        → Inv sock s.table
        → AllPolled (suc i) s.table.pfds
        → Goes (suc (suc i)) s (visit ll routes (suc i) chunks s)
    unfolding visit drop_connection
    visit-suc i chunks s h serves ready v a =
        let (p, here) = get_elem?-lt s.table.pfds (suc i) (omega (arith, v.size)) in
        elim (Bool-cases (p.revents == 0)) [
          | inl idle ↦ (s, ground arith, Kept-skip (suc i) s v a, ready)
          | inr busy ↦ elim (Option-cases p.fd) [
            | inl none' ↦ absurd (ground (arith, a (suc i) p (le_refl (suc i)) here none'))
            | inr (fd, e) ↦ elim (Bool-cases (has_input p.revents)) [
              | inr other ↦ (
                drop_connection ll (some fd) s,
                ground arith,
                drop_connection-Kept i fd s p v a here e,
                ready,
              )
              | inl input ↦
                  let (svc, done, ready') = serves s.service ready in
                  let k = drop_connection-Kept i fd (record s { service = svc }) p v a here e in
                  (
                    drop_connection ll (some fd) (record s { service = svc }),
                    ground arith,
                    record { inv = k.inv; polled = k.polled; conserved = k.conserved },
                    ready',
                  )
            ]
          ]
        ]
