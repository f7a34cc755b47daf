-- ===== src/Server/Poll/Table.antt =====
-- server/server.c: the poll table stays well formed.
use crinha.Prelude.{
  ℕ, ◌+◌, ◌≤◌, ◌<◌, ◌≡◌, refl, ◌∙◌, subst, ◌==◌, leb, false, Bool-cases, inl, inr, ◌⊎◌, ◌≢◌, some,
  List, [], ◌∷◌, length, get_elem?, arith, ==_iff,
}
use crinha.Server.Poll.{PollFd, PollTable, poll_push, poll_pop}
use crinha.Server.Poll.Descriptors.{
  one_if, holds, open_count, IsListening, AllPolled, fill_free-Filled, clear_fd-Cleared,
}

-- The table has 16 entries, of which `nfds` are in use; the first is the server's socket, and no
-- descriptor stands twice.
pub record Inv (sock : ℕ) (t : PollTable) : Type 0 where
  pub size : length t.pfds ≡ 16
  pub counted : t.nfds ≡ open_count t.pfds
  pub is_listening : IsListening sock t.pfds
  pub distinct : (f : ℕ) → holds f t.pfds ≤ 1

holds-listening : (sock : ℕ) (ps : List PollFd) → IsListening sock ps → holds sock ps ≡ 1
holds-listening sock [] l = elim l [ ]
holds-listening sock (p ∷ ps) l = rw (l.0, l.1) (ground arith)

pub listening-first :
    (sock : ℕ) (ps : List PollFd)
    → IsListening sock ps
    → (p : PollFd) × (get_elem? ps 0 ≡ some p) × (p.fd ≡ some sock)
listening-first sock [] l = elim l [ ]
listening-first sock (p ∷ ps) l = (p, refl, l.0)

pub poll_push-Inv :
    (sock : ℕ) (t : PollTable) (fd : ℕ)
    → Inv sock t
    → t.nfds < 16
    → holds fd t.pfds ≡ 0
    → Inv sock (poll_push t fd)
      × ((f : ℕ) → holds f (poll_push t fd).pfds ≡ holds f t.pfds + one_if (fd == f))
      × ((i : ℕ) → AllPolled i t.pfds → AllPolled i (poll_push t fd).pfds)
unfolding poll_push
poll_push-Inv sock t fd v room free =
    let filled = fill_free-Filled fd t.pfds (omega (arith, v.size, v.counted)) in
    let test : leb 16 t.nfds ≡ false = ground arith in
    let other : fd ≢ sock = λ e. absurd (
      omega (
        arith,
        holds-listening sock t.pfds v.is_listening,
        subst (λ (x : ℕ). holds x t.pfds ≡ 0) e free,
      )) in
    rw (test, filled.found)
      (
        record {
          size = filled.size ∙ v.size;
          counted = omega (arith, filled.count, v.counted);
          is_listening = filled.listening sock other v.is_listening;
          distinct = λ f. distinct_after f (filled.held f) (v.distinct f);
        },
        filled.held,
        filled.polled,
      )
  where
    distinct_after :
        (f : ℕ) {n : ℕ} → n ≡ holds f t.pfds + one_if (fd == f) → holds f t.pfds ≤ 1 → n ≤ 1
    distinct_after f e h = elim (Bool-cases (fd == f)) [
      | inl y ↦
          let z : holds f t.pfds ≡ 0 =
            subst (λ (x : ℕ). holds x t.pfds ≡ 0) ((==_iff fd f).0 y) free in
          ground (arith, e, z)
      | inr y ↦ ground (arith, e)
    ]

pub poll_pop-Inv :
    (sock : ℕ) (t : PollTable) (fd : ℕ)
    → Inv sock t
    → fd ≢ sock
    → 1 ≤ holds fd t.pfds
    → Inv sock (poll_pop t (some fd))
      × ((f : ℕ) → holds f t.pfds ≡ holds f (poll_pop t (some fd)).pfds + one_if (fd == f))
      × ((j : ℕ) (p : PollFd)
          → get_elem? (poll_pop t (some fd)).pfds j ≡ some p
          → (get_elem? t.pfds j ≡ some p)
            ⊎ ((q : PollFd) × (get_elem? t.pfds j ≡ some q) × (q.fd ≡ some fd)))
unfolding poll_pop
poll_pop-Inv sock t fd v other held =
    let cleared = clear_fd-Cleared fd t.pfds held in
    rw (cleared.found, poll_pop)
      (
        record {
          size = cleared.size ∙ v.size;
          counted = omega (arith, cleared.count, v.counted);
          is_listening = cleared.listening sock other v.is_listening;
          distinct = λ f. omega (arith, cleared.held f, v.distinct f);
        },
        cleared.held,
        cleared.kept,
      )
