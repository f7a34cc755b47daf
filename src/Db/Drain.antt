-- ===== src/Db/Drain.antt =====
-- util/db_connection.c: `db_execute_async` drains the connection before it sends.
use crinha.Prelude.{
  ℕ, zero, suc, ◌<◌, ◌≡◌, refl, sym, ap, ◌∙◌, subst, Option, none, some, Option-cases, inl, inr,
  List, arith, ok, ok_or, ok_injective,
}
use crinha.Db.Libpq.{Libpq, Drains}
use crinha.Db.State.{Db}
use crinha.Db.Query.{drain_results, db_execute_async}

-- From one world to the one in which nothing is pending: results are taken and freed until libpq returns
-- none.
pub data DrainsTo (pq : Libpq) (conn : Option pq.Conn) : pq.World → pq.World → Type 0 where
  none_left :
      {w : pq.World} → (pq.get_result conn w).0 ≡ none → DrainsTo pq conn w (pq.get_result conn w).1
  one_more :
      {w w' : pq.World} {r : pq.Res}
      → (pq.get_result conn w).0 ≡ some r
      → DrainsTo pq conn (pq.clear (some r) (pq.get_result conn w).1) w'
      → DrainsTo pq conn w w'

module _ (pq : Libpq) (drains : Drains pq) where
  open pq use {Conn, World, send_query, pending, get_result}

  drain_results-ok :
      (fuel : ℕ) (conn : Option Conn) (w : World)
      → pending conn w < fuel
      → (w' : World) × (drain_results pq fuel conn w ≡ ok w') × DrainsTo pq conn w w'
  unfolding drain_results
  drain_results-ok zero conn w h = absurd (omega arith)
  drain_results-ok (suc fuel) conn w h = elim (Option-cases (get_result conn w).0) [
    | inl e ↦ ((get_result conn w).1, rw (e, drain_results), none_left e)
    | inr (r, e) ↦
        let less =
          drains.falls conn w (get_result conn w).1 r (ap (λ x. (x, (get_result conn w).1)) e) in
        let (w', k, drained_rest) =
          drain_results-ok fuel conn (pq.clear (some r) (get_result conn w).1)
            (omega (arith, less)) in
        (w', rw (e, drain_results) k, one_more e drained_rest)
  ]

  -- The world once nothing is pending.
  abbrev pub drained : Option Conn → World → World
  drained conn w = ok_or w (drain_results pq (suc (pending conn w)) conn w)

  drain_results-drained :
      (conn : Option Conn) (w : World)
      → drain_results pq (suc (pending conn w)) conn w ≡ ok (drained conn w)
  drain_results-drained conn w =
      let (w', e, _) = drain_results-ok (suc (pending conn w)) conn w (omega arith) in
      e ∙ ap (λ m. ok (ok_or w m)) (sym e)

  pub drained-DrainsTo : (conn : Option Conn) (w : World) → DrainsTo pq conn w (drained conn w)
  drained-DrainsTo conn w =
      let (w', e, d) = drain_results-ok (suc (pending conn w)) conn w (omega arith) in
      subst (DrainsTo pq conn w) (sym (ap (ok_or w) e)) d

  pub db_execute_async_lem :
      (conn : Option Conn) (query : List ℕ) (d : Db pq)
      → db_execute_async pq conn query d
        ≡ ok (
          (send_query conn query (drained conn d.world)).0,
          record d { world = (send_query conn query (drained conn d.world)).1 },
        )
  unfolding db_execute_async
  db_execute_async_lem conn query d = rw (drain_results-drained conn d.world, db_execute_async) refl

  -- What the calls of the loop keep holds at its end.
  drain_results-keeps :
      (Q : World → Type 0) (conn : Option Conn)
      → ((w : World) → Q w → Q (get_result conn w).1)
      → ((r : Option pq.Res) (w : World) → Q w → Q (pq.clear r w))
      → (fuel : ℕ) (w w' : World) → Q w
      → drain_results pq fuel conn w ≡ ok w'
      → Q w'
  unfolding drain_results
  drain_results-keeps Q conn gets clears zero w w' q e = cc
  drain_results-keeps Q conn gets clears (suc fuel) w w' q e =
      elim (Option-cases (get_result conn w).0) [
        | inl h ↦ subst Q (ok_injective (rw (h, drain_results) at e)) (gets w q)
        | inr (r, h) ↦
            drain_results-keeps Q conn gets clears fuel (pq.clear (some r) (get_result conn w).1) w'
              (clears (some r) (get_result conn w).1 (gets w q)) (rw (h, drain_results) at e)
      ]

  pub drained-keeps :
      (Q : World → Type 0) (conn : Option Conn)
      → ((w : World) → Q w → Q (get_result conn w).1)
      → ((r : Option pq.Res) (w : World) → Q w → Q (pq.clear r w))
      → (w : World) → Q w
      → Q (drained conn w)
  drained-keeps Q conn gets clears w q =
      drain_results-keeps Q conn gets clears (suc (pending conn w)) w (drained conn w) q
        (drain_results-drained conn w)
