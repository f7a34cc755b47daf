-- ===== src/Router.antt =====
-- server/router.c: the table of routes, and the choice of a handler.
pub mod Table
use crinha.Prelude.{
  ℕ, zero, suc, ◌+◌, ◌==◌, ◌&&◌, ltb, if◌then◌else◌, Bool, true, false, Option, none, some, List,
  [], ◌∷◌, ◌++◌, set, replicate, codes, Exec, ok, fault, null_pointer, out_of_bounds, ◌>>=◌,
}
use crinha.Library.Llhttp.Method.{LlhttpMethod, method_value}
use crinha.Clib.Regex.{regcomp, regexec, Found}
use crinha.Db.State.{M, raise, pure}

abbrev pub crlf : List ℕ
crlf = 13 ∷ 10 ∷ []

-- The answers without a body: a status line and an empty line.
abbrev pub status_answer : List ℕ → List ℕ
status_answer line = line ++ (crlf ++ crlf)

abbrev pub http_ok : List ℕ
http_ok = status_answer (codes "HTTP/1.1 200 OK")

abbrev pub http_not_found : List ℕ
http_not_found = status_answer (codes "HTTP/1.1 404 Not Found")

abbrev pub http_bad_request : List ℕ
http_bad_request = status_answer (codes "HTTP/1.1 400 Bad Request")

abbrev pub http_unprocessable_entity : List ℕ
http_unprocessable_entity = status_answer (codes "HTTP/1.1 422 Unprocessable Entity/Content")

abbrev pub http_internal_server_error : List ℕ
http_internal_server_error = status_answer (codes "HTTP/1.1 500 Internal Server Error")

-- The values of llhttp_method_t that are handled.
abbrev pub http_get : ℕ
http_get = method_value LlhttpMethod.http_get

abbrev pub http_post : ℕ
http_post = method_value LlhttpMethod.http_post

abbrev pub max_routes : ℕ
max_routes = 10

-- controller_t and controller_body_t
abbrev pub ControllerT : Type 0 → Type 0
ControllerT S = List ℕ → M S (List ℕ)

abbrev pub ControllerBodyT : Type 0 → Type 0
ControllerBodyT S = List ℕ → Option (List ℕ) → M S (List ℕ)

-- A handler's function pointer may be NULL. `S` is the state that handlers change.
pub record Route (S : Type 0) : Type 0 where
  pub method : ℕ
  pub url : List ℕ
  pub controller : Option (ControllerT S)
  pub controller_body : Option (ControllerBodyT S)

-- `static Route *routes[MAX_ROUTES]`
abbrev pub Routes : Type 0 → Type 0
Routes S = List (Option (Route S))

abbrev pub no_routes : {S : Type 0} → Routes S
no_routes = replicate max_routes none

abbrev pub call_body :
    {S : Type 0}
    → Option (List ℕ → Option (List ℕ) → M S (List ℕ))
    → List ℕ
    → Option (List ℕ)
    → M S (List ℕ)
call_body none url body = raise null_pointer
call_body (some f) url body = f url body

abbrev pub call : {S : Type 0} → Option (List ℕ → M S (List ℕ)) → List ℕ → M S (List ℕ)
call none url = raise null_pointer
call (some f) url = f url

-- A pattern that does not compile matches nothing.
unfoldable pub router_match_url : List ℕ → List ℕ → Bool
router_match_url url request_url = elim (regcomp url) [
  | none ↦ false
  | some p ↦ elim (regexec p request_url) [ none ↦ false | some _ ↦ true ]
]

module _ {S : Type 0} where
  -- `for (i = …; routes[i] != NULL && i < MAX_ROUTES; i++);` on the entries from `i` on. The entry is
  -- read before the index is tested, so an index past the last entry is a fault.
  unfoldable pub routes_len_from : ℕ → Routes S → Exec ℕ
  routes_len_from i [] = fault out_of_bounds
  routes_len_from i (none ∷ rs) = ok i
  routes_len_from i (some r ∷ rs) =
      let rest = routes_len_from (i + 1) rs in if ltb i max_routes then rest else ok i

  unfoldable pub router_routes_len : Routes S → Exec ℕ
  router_routes_len routes = routes_len_from 0 routes

  unfoldable pub router_add_route : Routes S → Route S → Exec (Routes S × Bool)
  router_add_route routes route = do
    len ← router_routes_len routes
    if ltb len max_routes then ok (set routes len (some route), true) else ok (routes, false)

  -- The loop of `router_route`, with the same order of its tests.
  unfoldable pub route_from : ℕ → Routes S → ℕ → List ℕ → Option (List ℕ) → M S (List ℕ)
  route_from i [] method url body = raise out_of_bounds
  route_from i (none ∷ rs) method url body = pure http_bad_request
  route_from i (some r ∷ rs) method url body =
      let rest = route_from (i + 1) rs method url body in
      if ltb i max_routes
      then (if (r.method == method) && router_match_url r.url url
          then (if method == http_post
              then call_body r.controller_body url body
              else call r.controller url)
          else rest)
      else pure http_bad_request

  unfoldable pub router_route : Routes S → ℕ → List ℕ → Option (List ℕ) → M S (List ℕ)
  router_route routes method url body = route_from 0 routes method url body
