-- ===== src/Server/Poll/Descriptors.antt =====
-- server/server.c: which descriptors the poll table holds, and how often.
use crinha.Prelude.{
  ℕ, zero, suc, ◌+◌, ◌-◌, ◌≤◌, ◌<◌, ◌≡◌, refl, sym, ap, ◌∙◌, ◌==◌, Bool, true, false, Bool-cases,
  inl, inr, ◌⊎◌, ◌≢◌, Option-cases, Option, none, some, List, [], ◌∷◌, length, get_elem?, arith,
}
use crinha.Server.Poll.{PollFd, fill_free, same_fd, clear_fd}

abbrev pub one_if : Bool → ℕ
one_if true = 1
one_if false = 0

-- How many entries hold the descriptor.
abbrev pub holds : ℕ → List PollFd → ℕ
holds f [] = 0
holds f (p ∷ ps) = one_if (same_fd p.fd (some f)) + holds f ps

abbrev pub is_open : Option ℕ → Bool
is_open none = false
is_open (some _) = true

abbrev pub open_count : List PollFd → ℕ
open_count [] = 0
open_count (p ∷ ps) = one_if (is_open p.fd) + open_count ps

-- The first entry is the server's socket, and no other is.
abbrev pub IsListening : ℕ → List PollFd → Type 0
IsListening sock [] = ⊥
IsListening sock (p ∷ ps) = (p.fd ≡ some sock) × (holds sock ps ≡ 0)

-- From index `i` on, an entry without a descriptor has no events, as `poll` leaves it.
abbrev pub AllPolled : ℕ → List PollFd → Type 0
AllPolled i ps =
    (j : ℕ) (p : PollFd) → i ≤ j → get_elem? ps j ≡ some p → p.fd ≡ none → p.revents ≡ 0

-- What filling a free entry does.
pub record Filled (fd : ℕ) (ps : List PollFd) : Type 0 where
  pub out : List PollFd
  pub found : fill_free fd ps ≡ some out
  pub size : length out ≡ length ps
  pub count : open_count out ≡ open_count ps + 1
  pub held : (f : ℕ) → holds f out ≡ holds f ps + one_if (fd == f)
  pub listening : (sock : ℕ) → fd ≢ sock → IsListening sock ps → IsListening sock out
  pub polled : (i : ℕ) → AllPolled i ps → AllPolled i out

some-ne-none : (o : Option ℕ) {x : ℕ} → o ≡ some x → o ≡ none → ⊥
some-ne-none o e n = cc

AllPolled-tail :
    (i : ℕ) (p : PollFd) (ps : List PollFd) → AllPolled i (p ∷ ps) → AllPolled (i - 1) ps
AllPolled-tail i p ps a j q h e n = a (suc j) q (omega arith) e n

AllPolled-cons :
    (i : ℕ) (p : PollFd) (ps : List PollFd)
    → (i ≡ 0 → p.fd ≡ none → p.revents ≡ 0)
    → AllPolled (i - 1) ps
    → AllPolled i (p ∷ ps)
AllPolled-cons i p ps h a zero q k e n = ground (arith, h (omega arith))
AllPolled-cons i p ps h a (suc j) q k e n = a j q (omega arith) e n

pub fill_free-Filled : (fd : ℕ) (ps : List PollFd) → open_count ps < length ps → Filled fd ps
unfolding fill_free
fill_free-Filled fd [] h = elim h [ ]
fill_free-Filled fd (p ∷ ps) h = elim (Option-cases p.fd) [
  | inl e ↦ record {
    out = record p { fd = some fd; revents = 0 } ∷ ps;
    found = ground arith;
    size = refl;
    count = ground arith;
    held = λ f. ground arith;
    listening = λ sock ne l. absurd (cc (sym e ∙ l.0));
    polled = λ i a.
        AllPolled-cons i (record p { fd = some fd; revents = 0 }) ps (λ z n. refl)
          (AllPolled-tail i p ps a);
  }
  | inr (x, e) ↦
      let rest = fill_free-Filled fd ps (ground arith) in
      record {
        out = p ∷ rest.out;
        found = ground (arith, rest.found);
        size = ap suc rest.size;
        count = ground (arith, rest.count);
        held = λ f. omega (arith, rest.held f);
        listening = λ sock ne l. (l.0, ground (arith, rest.held sock));
        polled = λ i a.
            AllPolled-cons i p rest.out (λ z n. absurd (some-ne-none p.fd e n))
              (rest.polled (i - 1) (AllPolled-tail i p ps a));
      }
]

-- What clearing the entry of a descriptor does. The entries behind it are as they were.
pub record Cleared (fd : ℕ) (ps : List PollFd) : Type 0 where
  pub out : List PollFd
  pub found : clear_fd (some fd) ps ≡ some out
  pub size : length out ≡ length ps
  pub count : open_count ps ≡ open_count out + 1
  pub held : (f : ℕ) → holds f ps ≡ holds f out + one_if (fd == f)
  pub listening : (sock : ℕ) → fd ≢ sock → IsListening sock ps → IsListening sock out
  pub kept :
      (j : ℕ) (p : PollFd)
      → get_elem? out j ≡ some p
      → (get_elem? ps j ≡ some p) ⊎ ((q : PollFd) × (get_elem? ps j ≡ some q) × (q.fd ≡ some fd))

same_fd-eq : (o : Option ℕ) (f : ℕ) → same_fd o (some f) ≡ true → o ≡ some f
same_fd-eq none f h = cc
same_fd-eq (some x) f h = ground arith

pub clear_fd-Cleared : (fd : ℕ) (ps : List PollFd) → 1 ≤ holds fd ps → Cleared fd ps
unfolding clear_fd
clear_fd-Cleared fd [] h = elim h [ ]
clear_fd-Cleared fd (p ∷ ps) h = elim (Bool-cases (same_fd p.fd (some fd))) [
  | inl hit ↦
      let e = same_fd-eq p.fd fd hit in
      record {
        out = record p { fd = none } ∷ ps;
        found = rw hit;
        size = refl;
        count = rw e (omega arith);
        held = λ f. rw e (omega arith);
        listening = λ sock ne l. ground arith;
        kept = kept_hit e;
      }
  | inr miss ↦
      let rest = clear_fd-Cleared fd ps (ground arith) in
      record {
        out = p ∷ rest.out;
        found = rw (miss, rest.found);
        size = ap suc rest.size;
        count = omega (arith, rest.count);
        held = λ f. omega (arith, rest.held f);
        listening = λ sock ne l. (l.0, ground (arith, rest.held sock));
        kept = kept_miss rest.out rest.kept;
      }
]
  where
    kept_hit :
        p.fd ≡ some fd
        → (j : ℕ) (q : PollFd) → get_elem? (record p { fd = none } ∷ ps) j ≡ some q
        → (get_elem? (p ∷ ps) j ≡ some q)
          ⊎ ((r : PollFd) × (get_elem? (p ∷ ps) j ≡ some r) × (r.fd ≡ some fd))
    kept_hit e zero q h = inr (p, refl, e)
    kept_hit e (suc j) q h = inl h

    kept_miss :
        (out : List PollFd)
        → ((j : ℕ) (q : PollFd)
            → get_elem? out j ≡ some q
            → (get_elem? ps j ≡ some q)
              ⊎ ((r : PollFd) × (get_elem? ps j ≡ some r) × (r.fd ≡ some fd)))
        → (j : ℕ) (q : PollFd) → get_elem? (p ∷ out) j ≡ some q
        → (get_elem? (p ∷ ps) j ≡ some q)
          ⊎ ((r : PollFd) × (get_elem? (p ∷ ps) j ≡ some r) × (r.fd ≡ some fd))
    kept_miss out k zero q h = inl h
    kept_miss out k (suc j) q h = k j q h

pub holds-get_elem? :
    (f : ℕ) (ps : List PollFd) (i : ℕ) (p : PollFd)
    → get_elem? ps i ≡ some p
    → p.fd ≡ some f
    → 1 ≤ holds f ps
holds-get_elem? f [] i p e h = cc
holds-get_elem? f (q ∷ ps) zero p e h = ground arith
holds-get_elem? f (q ∷ ps) (suc i) p e h = omega (arith, holds-get_elem? f ps i p e h)

-- Two entries with one descriptor count twice.
pub holds_twice :
    (f : ℕ) (ps : List PollFd) (i j : ℕ) (p q : PollFd)
    → i < j
    → get_elem? ps i ≡ some p
    → p.fd ≡ some f
    → get_elem? ps j ≡ some q
    → q.fd ≡ some f
    → 2 ≤ holds f ps
holds_twice f [] i j p q l e h e' h' = cc
holds_twice f (r ∷ ps) i zero p q l e h e' h' = absurd (omega arith)
holds_twice f (r ∷ ps) zero (suc j) p q l e h e' h' = ground (arith, holds-get_elem? f ps j q e' h')
holds_twice f (r ∷ ps) (suc i) (suc j) p q l e h e' h' =
    omega (arith, holds_twice f ps i j p q (omega arith) e h e' h')
