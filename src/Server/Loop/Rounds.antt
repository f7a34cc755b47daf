-- ===== src/Server/Loop/Rounds.antt =====
-- server/server.c: whole rounds of `socket_loop`, and any number of them.
use crinha.Prelude.{
  ℕ, zero, suc, ◌+◌, ◌≡◌, refl, sym, ap, ◌∙◌, Option, none, some, List, [], ◌∷◌, length, arith, ok,
  ◌>>=◌, ok_injective, subst,
}
use crinha.Router.{Routes}
use crinha.HttpParser.Llhttp.{Llhttp}
use crinha.Server.Poll.{PollFd, PollTable, poll_init, poll_push, fill_free}
use crinha.Server.Poll.Descriptors.{holds, open_count, IsListening, AllPolled}
use crinha.Server.SocketRead.{Service}
use crinha.Server.Loop.{Server, visit_all, poll_round, set_revents, listening}
use crinha.Server.Poll.Table.{Inv}
use crinha.Server.Loop.Invariant.{Kept, Serves, IsFresh, listed_count, visit-zero, visit-suc}

holds-set_revents :
    (f : ℕ) (rs : List ℕ) (ps : List PollFd) → holds f (set_revents rs ps) ≡ holds f ps
unfolding set_revents
holds-set_revents f [] ps = refl
holds-set_revents f (r ∷ rs) [] = refl
holds-set_revents f (r ∷ rs) (p ∷ ps) = omega (arith, holds-set_revents f rs ps)

open_count-set_revents :
    (rs : List ℕ) (ps : List PollFd) → open_count (set_revents rs ps) ≡ open_count ps
unfolding set_revents
open_count-set_revents [] ps = refl
open_count-set_revents (r ∷ rs) [] = refl
open_count-set_revents (r ∷ rs) (p ∷ ps) = omega (arith, open_count-set_revents rs ps)

length-set_revents : (rs : List ℕ) (ps : List PollFd) → length (set_revents rs ps) ≡ length ps
unfolding set_revents
length-set_revents [] ps = refl
length-set_revents (r ∷ rs) [] = refl
length-set_revents (r ∷ rs) (p ∷ ps) = omega (arith, length-set_revents rs ps)

IsListening-set_revents :
    (sock : ℕ) (rs : List ℕ) (ps : List PollFd)
    → IsListening sock ps
    → IsListening sock (set_revents rs ps)
unfolding set_revents
IsListening-set_revents sock [] ps l = l
IsListening-set_revents sock (r ∷ rs) [] l = l
IsListening-set_revents sock (r ∷ rs) (p ∷ ps) l = (l.0, holds-set_revents sock rs ps ∙ l.1)

IsFresh-set_revents :
    (rs : List ℕ) (ps : List PollFd) (l : List (Option ℕ))
    → IsFresh ps l
    → IsFresh (set_revents rs ps) l
IsFresh-set_revents rs ps [] h = h
IsFresh-set_revents rs ps (none ∷ l) h = h
IsFresh-set_revents rs ps (some fd ∷ l) h = holds-set_revents fd rs ps ∙ h

-- The table once `poll` has written the events.
abbrev pub polled_table : List ℕ → PollTable → PollTable
polled_table rs t = record t { pfds = set_revents rs t.pfds }

Inv-polled_table :
    (sock : ℕ) (rs : List ℕ) (t : PollTable) → Inv sock t → Inv sock (polled_table rs t)
Inv-polled_table sock rs t v = record {
  size = length-set_revents rs t.pfds ∙ v.size;
  counted = omega (arith, v.counted, open_count-set_revents rs t.pfds);
  is_listening = IsListening-set_revents sock rs t.pfds v.is_listening;
  distinct = λ f. omega (arith, v.distinct f, holds-set_revents f rs t.pfds);
}

holds-poll_init : (f : ℕ) (ps : List PollFd) → holds f (poll_init ps) ≡ 0
unfolding poll_init
holds-poll_init f [] = refl
holds-poll_init f (p ∷ ps) = omega (arith, holds-poll_init f ps)

open_count-poll_init : (ps : List PollFd) → open_count (poll_init ps) ≡ 0
unfolding poll_init
open_count-poll_init [] = refl
open_count-poll_init (p ∷ ps) = omega (arith, open_count-poll_init ps)

length-poll_init : (ps : List PollFd) → length (poll_init ps) ≡ length ps
unfolding poll_init
length-poll_init [] = refl
length-poll_init (p ∷ ps) = omega (arith, length-poll_init ps)

-- The table with which the loop starts is well formed, whatever was in the array of 16 entries: the
-- server's socket stands first, alone.
pub listening-Inv : (sock : ℕ) (raw : List PollFd) → length raw ≡ 16 → Inv sock (listening sock raw)
unfolding listening poll_push poll_init fill_free
listening-Inv sock [] h = absurd (omega arith)
listening-Inv sock (p ∷ ps) h = record {
  size = omega (arith, length-poll_init ps);
  counted = ground (arith, open_count-poll_init ps);
  is_listening = (refl, holds-poll_init sock ps);
  distinct = λ f. ground (arith, holds-poll_init f ps);
}

module _ (ll : Llhttp) {S : Type 0} (routes : Routes S) (sock : ℕ)
    (Ready : Service ll S → Type 0) where
  Kept-trans :
      (i j : ℕ) {s t u : Server ll S}
      → Kept ll routes sock i s t
      → Kept ll routes sock j t u
      → Kept ll routes sock j s u
  Kept-trans i j k k' = record {
    inv = k'.inv;
    polled = k'.polled;
    conserved = λ f. omega (arith, k.conserved f, k'.conserved f);
  }

  visit_all-Goes :
      (n i : ℕ) (input : ℕ → List (List ℕ)) (s : Server ll S)
      → suc i + n ≡ 16
      → ((k : ℕ) → Serves ll routes sock Ready (input k))
      → Ready s.service
      → Inv sock s.table
      → AllPolled (suc i) s.table.pfds
      → (s' : Server ll S) × (visit_all ll routes n (suc i) input s ≡ ok s')
        × Kept ll routes sock 16 s s'
        × Ready s'.service
  unfolding visit_all
  visit_all-Goes zero i input s h serves ready v a = (
    s,
    refl,
    record { inv = v; polled = λ j p k. a j p (omega arith); conserved = λ f. refl },
    ready,
  )
  visit_all-Goes (suc n) i input s h serves ready v a =
      let (t, e, k, r) =
        visit-suc ll routes sock Ready i (input (suc i)) s (omega arith) (serves (suc i)) ready v
          a in
      let (u, e', k', r') =
        visit_all-Goes n (suc i) input t (omega arith) serves r k.inv k.polled in
      (
        u,
        ap (λ m. m >>= visit_all ll routes n (suc (suc i)) input) e ∙ e',
        Kept-trans (suc (suc i)) 16 k k',
        r',
      )

  -- A round ends, and keeps the table: 16 entries with the server's socket first, `nfds` in use, and
  -- no descriptor twice. Every descriptor is still polled, or closed: none is lost. (`poll` reports
  -- nothing for an entry without a descriptor, `accept` returns one that is not in use, and reading
  -- a socket does not fault, in services with a property that it keeps.)
  pub poll_round-Kept :
      (revents : List ℕ) (input : ℕ → List (List ℕ)) (s : Server ll S)
      → Ready s.service
      → Inv sock s.table
      → AllPolled 0 (set_revents revents s.table.pfds)
      → IsFresh s.table.pfds s.accepts
      → ((k : ℕ) → Serves ll routes sock Ready (input k))
      → (s' : Server ll S) × (poll_round ll routes revents input s ≡ ok s')
        × Ready s'.service
        × Inv sock s'.table
        × ((f : ℕ)
            → holds f s'.table.pfds + listed_count f s'.closed + listed_count f s'.accepts
              ≡ holds f s.table.pfds + listed_count f s.closed + listed_count f s.accepts)
  unfolding poll_round visit_all
  poll_round-Kept revents input s ready v a fresh serves =
      let t : Server ll S = record s { table = polled_table revents s.table } in
      let v' = Inv-polled_table sock revents s.table v in
      let (u, e, k, r) =
        visit-zero ll routes sock Ready (input 0) t ready v' a
          (IsFresh-set_revents revents s.table.pfds s.accepts fresh) in
      let (w, e', k', r') = visit_all-Goes 15 0 input u refl serves r k.inv k.polled in
      (
        w,
        ap (λ m. m >>= visit_all ll routes 15 1 input) e ∙ e',
        r',
        k'.inv,
        λ f. omega (arith, k.conserved f, k'.conserved f, holds-set_revents f revents s.table.pfds),
      )

  -- What the loop can reach: any number of rounds, each with what the system answers in it.
  pub data Reach (s : Server ll S) : Server ll S → Type 0 where
    here : Reach s s
    next :
        {t u : Server ll S} (revents : List ℕ) (input : ℕ → List (List ℕ))
        → Reach s t
        → AllPolled 0 (set_revents revents t.table.pfds)
        → IsFresh t.table.pfds t.accepts
        → ((k : ℕ) → Serves ll routes sock Ready (input k))
        → poll_round ll routes revents input t ≡ ok u
        → Reach s u

  -- Whatever rounds follow one another (each as in `Reach`: `poll` reports nothing for an entry without
  -- a descriptor, `accept` returns one that is not in use, reading a socket does not fault, in services
  -- with a property that it keeps), a table that is well formed stays so, and every descriptor that was
  -- polled or accepted is still polled, or closed: none is lost.
  pub Reach-Inv :
      {s t : Server ll S}
      → Ready s.service
      → Inv sock s.table
      → Reach s t
      → Ready t.service
        × Inv sock t.table
        × ((f : ℕ)
            → holds f t.table.pfds + listed_count f t.closed + listed_count f t.accepts
              ≡ holds f s.table.pfds + listed_count f s.closed + listed_count f s.accepts)
  Reach-Inv ready v here = (ready, v, λ f. refl)
  Reach-Inv {s} ready v (next {t} {u} revents input r a fresh serves e) =
      let (ready', v', c) = Reach-Inv ready v r in
      let (w, e', ready'', v'', c') = poll_round-Kept revents input t ready' v' a fresh serves in
      let same = ok_injective (sym e' ∙ e) in
      (
        subst (λ (x : Server ll S). Ready x.service) same ready'',
        subst (λ (x : Server ll S). Inv sock x.table) same v'',
        λ f.
            subst
              (λ (x : Server ll S).
                holds f x.table.pfds + listed_count f x.closed + listed_count f x.accepts
                ≡ holds f s.table.pfds + listed_count f s.closed + listed_count f s.accepts)
              same (c' f ∙ c f),
      )
