-- ===== src/Router/Table.antt =====
-- server/router.c: adding routes, and finding the route of a request.
use crinha.Prelude.{
  ℕ, zero, suc, ◌+◌, ◌≤◌, ◌≡◌, refl, ap, ◌==◌, ◌&&◌, ltb, if◌then◌else◌, Bool, true, Bool-cases,
  inl, inr, Option, none, some, List, [], ◌∷◌, ◌++◌, set, replicate, map, length, arith, ok, fault,
  out_of_bounds,
}
use crinha.Db.State.{M, raise, pure}
use crinha.Router.{
  Route, Routes, router_match_url, routes_len_from, router_routes_len, router_add_route, route_from,
  router_route, http_bad_request, http_post, call_body, call,
}

module _ {S : Type 0} where
  -- A table that holds some routes, and NULL behind them.
  abbrev pub table_of : List (Route S) → ℕ → Routes S
  table_of rs free = map some rs ++ replicate free none

  len_from :
      (i : ℕ) (rs : List (Route S)) (free : ℕ)
      → i + length rs + suc free ≤ 10
      → routes_len_from i (table_of rs (suc free)) ≡ ok (i + length rs)
  unfolding routes_len_from
  len_from i [] free h = ground arith
  len_from i (r ∷ rs) free h = ground (arith, len_from (i + 1) rs free (omega arith))

  len_full :
      (i : ℕ) (rs : List (Route S))
      → i + length rs ≤ 10
      → routes_len_from i (table_of rs 0) ≡ fault out_of_bounds
  unfolding routes_len_from
  len_full i [] h = refl
  len_full i (r ∷ rs) h = ground (arith, len_full (i + 1) rs (omega arith))

  set_free :
      (rs : List (Route S)) (free : ℕ) (r : Route S)
      → set (table_of rs (suc free)) (length rs) (some r) ≡ table_of (rs ++ r ∷ []) free
  set_free [] free r = refl
  set_free (x ∷ rs) free r = ap (λ t. some x ∷ t) (set_free rs free r)

  -- A table with a free entry takes a route behind the others; a full table of ten is read past its
  -- end, and the test for a full table is not reached.
  pub router_add_route-table :
      (rs : List (Route S)) (free : ℕ) (r : Route S)
      → length rs + free ≡ 10
      → router_add_route (table_of rs free) r ≡ (elim free [
        | zero ↦ fault out_of_bounds
        | suc free' ↦ ok (table_of (rs ++ r ∷ []) free', true)
      ])
  unfolding router_add_route router_routes_len
  router_add_route-table rs zero r h = rw (len_full 0 rs (omega arith)) refl
  router_add_route-table rs (suc free) r h =
      rw (len_from 0 rs free (omega arith)) (ground (arith, set_free rs free r))

  abbrev pub is_chosen : ℕ → List ℕ → Route S → Bool
  is_chosen method url r = (r.method == method) && router_match_url r.url url

  -- The first route with the method and a pattern that the URL matches.
  abbrev pub first_chosen : ℕ → List ℕ → List (Route S) → Option (Route S)
  first_chosen method url [] = none
  first_chosen method url (r ∷ rs) =
      let rest = first_chosen method url rs in if is_chosen method url r then some r else rest

  -- The handler of a chosen route; what `missing` does if there is none.
  abbrev pub run_chosen :
      Option (Route S) → M S (List ℕ) → ℕ → List ℕ → Option (List ℕ) → M S (List ℕ)
  run_chosen none missing method url body = missing
  run_chosen (some r) missing method url body =
      if method == http_post then call_body r.controller_body url body else call r.controller url

  route_from-table :
      (i : ℕ) (rs : List (Route S)) (free method : ℕ) (url : List ℕ) (body : Option (List ℕ))
      → i + length rs ≤ 10
      → route_from i (table_of rs free) method url body
        ≡ run_chosen
            (first_chosen method url rs)
            (elim free [ zero ↦ raise out_of_bounds | suc _ ↦ pure http_bad_request ])
            method
            url
            body
  unfolding route_from
  route_from-table i [] zero method url body h = refl
  route_from-table i [] (suc free) method url body h = refl
  route_from-table i (r ∷ rs) free method url body h =
      let rest = route_from-table (i + 1) rs free method url body (omega arith) in
      let small : ltb i 10 ≡ true = ground arith in
      elim (Bool-cases (is_chosen method url r)) [
        | inl y ↦ rw (small, y) refl
        | inr y ↦ rw (small, y) rest
      ]

  -- A request goes to the first route with its method whose pattern its URL matches. If there is
  -- none, it is answered by 400, if the table has a free entry; a full table is read past its end.
  pub router_route-table :
      (rs : List (Route S)) (free method : ℕ) (url : List ℕ) (body : Option (List ℕ))
      → length rs + free ≡ 10
      → router_route (table_of rs free) method url body
        ≡ run_chosen
            (first_chosen method url rs)
            (elim free [ zero ↦ raise out_of_bounds | suc _ ↦ pure http_bad_request ])
            method
            url
            body
  unfolding router_route
  router_route-table rs free method url body h =
      route_from-table 0 rs free method url body (omega arith)
