-- ===== src/Server/Startup/Serving.antt =====
-- server/server.c: the loop until a signal, and the whole of `server_init`.
use crinha.Prelude.{
  ℕ, zero, suc, ◌+◌, ◌≡◌, refl, ◌∙◌, Bool, true, false, Bool-cases, inl, inr, Option, some, List,
  [], ◌∷◌, get_elem?, ok,
}
use crinha.Router.{Routes}
use crinha.HttpParser.Llhttp.{Llhttp}
use crinha.HttpParser.Lifetime.{initial_parser}
use crinha.Server.Poll.{PollFd}
use crinha.Server.Poll.Descriptors.{holds, AllPolled}
use crinha.Server.Poll.Table.{Inv}
use crinha.Server.SocketRead.{Service}
use crinha.Server.Loop.{Server, set_revents, listening}
use crinha.Server.Loop.Invariant.{Serves, IsFresh, listed_count}
use crinha.Server.Loop.Rounds.{poll_round-Kept}
use crinha.Server.System.{Answers}
use crinha.Server.Startup.{Turn, turn, loop_until}

module _ (ll : Llhttp) {S : Type 0} (routes : Routes S) (sock : ℕ)
    (Ready : Service ll S → Type 0) where
  -- What the system does in a turn that reports events.
  abbrev pub FairTurn : Turn → Server ll S → Type 0
  FairTurn t s =
      AllPolled 0 (set_revents t.revents s.table.pfds)
      × IsFresh s.table.pfds s.accepts
      × ((k : ℕ) → Serves ll routes sock Ready (t.input k))

  -- And in all turns, on the servers that they lead to.
  abbrev pub IsFair : List Turn → Server ll S → Type 0
  IsFair [] s = Unit {0}
  IsFair (t ∷ turns) s =
      (t.is_ready ≡ true → FairTurn t s)
      × ((s' : Server ll S) → turn ll routes t s ≡ ok s' → IsFair turns s')

  abbrev pub StaysWell : Server ll S → Server ll S → Type 0
  StaysWell s s' =
      Ready s'.service
      × Inv sock s'.table
      × ((f : ℕ)
          → holds f s'.table.pfds + listed_count f s'.closed + listed_count f s'.accepts
            ≡ holds f s.table.pfds + listed_count f s.closed + listed_count f s.accepts)

  turn-StaysWell :
      (t : Turn) (s : Server ll S)
      → (t.is_ready ≡ true → FairTurn t s)
      → Ready s.service
      → Inv sock s.table
      → (s' : Server ll S) × (turn ll routes t s ≡ ok s') × StaysWell s s'
  unfolding turn
  turn-StaysWell t s fair ready v = elim (Bool-cases t.is_ready) [
    | inl y ↦
        let (polled, fresh, serves) = fair y in
        let (s', e, r, v', c) =
          poll_round-Kept ll routes sock Ready t.revents t.input s ready v polled fresh serves in
        (s', rw y e, (r, v', c))
    | inr n ↦ (s, rw n refl, (ready, v, λ f. refl))
  ]

  turn_and_rest :
      (t : Turn) (turns : List Turn) (s s' : Server ll S) (b : Bool)
      → turn ll routes t s ≡ ok s'
      → t.is_signalled ≡ b
      → loop_until ll routes false (t ∷ turns) s ≡ loop_until ll routes b turns s'
  unfolding loop_until
  turn_and_rest t turns s s' true e h = rw (e, loop_until) (rw h refl)
  turn_and_rest t turns s s' false e h = rw (e, loop_until) (rw h refl)

  comes_later :
      (turns : List Turn) (n : ℕ) (t u : Turn)
      → get_elem? (u ∷ turns) n ≡ some t
      → t.is_signalled ≡ true
      → u.is_signalled ≡ false
      → (m : ℕ) × (get_elem? turns m ≡ some t)
  comes_later turns zero t u e y f = absurd (cc)
  comes_later turns (suc m) t u e y f = (m, e)

  -- The loop ends once a signal has come, in however many turns, whatever the system would have had
  -- for it afterwards.
  pub loop_until-StaysWell :
      (turns : List Turn) (s : Server ll S) (n : ℕ) (t : Turn)
      → IsFair turns s
      → get_elem? turns n ≡ some t
      → t.is_signalled ≡ true
      → Ready s.service
      → Inv sock s.table
      → (s' : Server ll S) × (loop_until ll routes false turns s ≡ ok s') × StaysWell s s'
  unfolding loop_until
  loop_until-StaysWell [] s n t fair at signalled ready v = cc
  loop_until-StaysWell (u ∷ turns) s n t fair at signalled ready v =
      let (s', e, (ready', v', c')) = turn-StaysWell u s fair.0 ready v in
      elim (Bool-cases u.is_signalled) [
        | inl y ↦ (s', turn_and_rest u turns s s' true e y, (ready', v', c'))
        | inr not_yet ↦
            let (m, at') = comes_later turns n t u at signalled not_yet in
            let (s'', e', (ready'', v'', c'')) =
              loop_until-StaysWell turns s' m t (fair.1 s' e) at' signalled ready' v' in
            (
              s'',
              turn_and_rest u turns s s' false e not_yet ∙ e',
              (ready'', v'', λ f. c'' f ∙ c' f),
            )
      ]

  module _ (os : Answers) (port : ℕ) (app : S) (pfds : List PollFd) (accepts : List (Option ℕ))
      (turns : List Turn) (live : ℕ) where
    abbrev pub start : Server ll S
    start = record {
      table = listening sock pfds;
      service = record { parser = initial_parser ll; app = app; sent = [] };
      closed = [];
      accepts = accepts;
    }
