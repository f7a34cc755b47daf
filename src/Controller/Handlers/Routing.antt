-- ===== src/Controller/Handlers/Routing.antt =====
-- controller/cliente_controller.c and server/router.c: which requests reach which handler.
use crinha.Prelude.{
  ℕ, ◌≡◌, ◌≢◌, arith, refl, sym, ◌∙◌, ◌==◌, ◌&&◌, Bool, true, false, Bool-cases, inl, inr, Option,
  List, [], ◌∷◌, ok, ==_iff,
}
use crinha.Clib.Regex.Matching.{AllIn}
use crinha.Db.Libpq.{Libpq}
use crinha.Db.State.{Db, pure}
use crinha.Library.Llhttp.Method.{LlhttpMethod, method_value}
use crinha.Router.{
  Routes, Route, router_route, router_match_url, no_routes, http_bad_request, http_get, http_post,
}
use crinha.Router.Table.{table_of, router_add_route-table, router_route-table}
use crinha.Controller.Jansson.{Jansson}
use crinha.Controller.Url.{url_find_by_id, url_transacao_save}
use crinha.Controller.Url.Param.{
  Suffix, extrato, transacoes, url_of, id_set, match_url_find_iff, match_url_save_iff,
}
use crinha.Controller.Handlers.{
  route_find_by_id, route_transacao_save, cliente_controller_init, cliente_controller_find_by_id,
  cliente_controller_save_transacao,
}

value_get : (m : LlhttpMethod) → method_value m ≡ 1 → m ≡ LlhttpMethod.http_get
value_get m e = ground arith

value_post : (m : LlhttpMethod) → method_value m ≡ 3 → m ≡ LlhttpMethod.http_post
value_post m e = ground arith

guarded : (m method : ℕ) (b : Bool) → (method ≡ m → b ≡ false) → ((m == method) && b) ≡ false
guarded m method b h = elim (Bool-cases (m == method)) [
  | inl y ↦ rw (y, h (sym ((==_iff m method).0 y))) refl
  | inr n ↦ rw n refl
]

not_true : (b : Bool) → ¬ (b ≡ true) → b ≡ false
not_true b h = ground arith

-- /clientes/P/ and a suffix.
abbrev pub HasForm : Suffix → List ℕ → Type 0
HasForm suffix url = (p : List ℕ) × (url ≡ url_of p suffix) × AllIn id_set p

module _ (js : Jansson) (pq : Libpq) (local_time : pq.World → List ℕ × ℕ) where
  abbrev pub both : List (Route (Db pq))
  both = route_find_by_id js pq local_time ∷ route_transacao_save js pq local_time ∷ []

  -- The table once the controller has added its routes.
  abbrev pub routes : Routes (Db pq)
  routes = table_of both 8

  pub init-routes : cliente_controller_init js pq local_time no_routes ≡ ok routes
  unfolding cliente_controller_init
  init-routes = rw (router_add_route-table [] 10 (route_find_by_id js pq local_time) refl) (
      rw
        (router_add_route-table (route_find_by_id js pq local_time ∷ []) 9
          (route_transacao_save js pq local_time) refl)
        refl)

  -- GET of /clientes/P/extrato is answered by the statement's handler, and POST of
  -- /clientes/P/transacoes by the one that saves a transaction, for every P of letters, digits, `-`
  -- and `\`.
  pub router_route-handlers :
      (p : List ℕ) (body : Option (List ℕ))
      → AllIn id_set p
      → (router_route routes http_get (url_of p extrato) body
          ≡ cliente_controller_find_by_id js pq local_time (url_of p extrato))
        × (router_route routes http_post (url_of p transacoes) body
            ≡ cliente_controller_save_transacao js pq (url_of p transacoes) body)
  router_route-handlers p body a =
      let find : router_match_url url_find_by_id (url_of p extrato) ≡ true =
        (match_url_find_iff (url_of p extrato)).1 (p, refl, a) in
      let save : router_match_url url_transacao_save (url_of p transacoes) ≡ true =
        (match_url_save_iff (url_of p transacoes)).1 (p, refl, a) in
      (
        router_route-table both 8 http_get (url_of p extrato) body refl ∙ rw find refl,
        router_route-table both 8 http_post (url_of p transacoes) body refl ∙ rw save refl,
      )

  -- Any other request is answered by 400: a GET whose URL is no /clientes/P/extrato, a POST whose URL is
  -- no /clientes/P/transacoes, where P is of letters, digits, `-` and `\`, and one with another method.
  pub router_route-other :
      (method : ℕ) (url : List ℕ) (body : Option (List ℕ))
      → (method ≡ http_get → ¬ HasForm extrato url)
      → (method ≡ http_post → ¬ HasForm transacoes url)
      → router_route routes method url body ≡ pure http_bad_request
  router_route-other method url body g s =
      router_route-table both 8 method url body refl
      ∙ rw
          (
            guarded http_get method (router_match_url url_find_by_id url)
                (λ e. not_true _ (λ m. g e ((match_url_find_iff url).0 m))),
            guarded http_post method (router_match_url url_transacao_save url)
                (λ e. not_true _ (λ m. s e ((match_url_save_iff url).0 m))),
          )
          refl

  -- A request with any of the 46 methods of llhttp but GET and POST is answered by 400, whatever its URL.
  pub router_route-methods :
      (m : LlhttpMethod) (url : List ℕ) (body : Option (List ℕ))
      → m ≢ LlhttpMethod.http_get
      → m ≢ LlhttpMethod.http_post
      → router_route routes (method_value m) url body ≡ pure http_bad_request
  router_route-methods m url body not_get not_post =
      router_route-other (method_value m) url body (λ e. absurd (not_get (value_get m e)))
        (λ e. absurd (not_post (value_post m e)))
