-- ===== src/Tests/UrlRuns.antt =====
-- server/router.c, and the tests of controller/ on URLs and balances.
use crinha.Prelude.{
  ℕ, zero, suc, ◌-◌, ◌^◌, ◌≡◌, ◌↔◌, refl, true, false, none, some, List, ◌++◌, replicate, codes,
  arith, ok, fault, out_of_bounds, ap, length, length-append,
}
use crinha.Prelude.Int.{pos, negsuc, neg_ℤ, ◌-ℤ◌, ◌≤ℤ◌, ltb_ℤ, to_bits}
use crinha.Clib.Decimal.{decimal, atoi}
use crinha.Clib.Decimal.RoundTrip.{AllDigits}
use crinha.Clib.Regex.Matching.{AllIn}
use crinha.Entity.{Cliente, Transacao}
use crinha.Db.State.{pure}
use crinha.Router.{
  Route, router_add_route, router_route, router_match_url, http_get, http_post, http_bad_request,
}
use crinha.Router.Table.{table_of, router_add_route-table}
use crinha.Controller.Validation.{is_limite_excedido, update_saldo_cliente, is_id_cliente_valido}
use crinha.Controller.Validation.Limit.{is_limite_excedido_iff, is_limite_excedido-wraps}
use crinha.Controller.Validation.Identifier.{extract_id}
use crinha.Controller.Url.{extract_url_param, url_find_by_id}
use crinha.Controller.Url.Param.{
  extrato, transacoes, url_of, id_set, match_url_find_iff, extract_url_param_digits,
}
use crinha.Controller.Handlers.{cliente_controller_find_by_id, cliente_controller_save_transacao}
use crinha.Controller.Handlers.Routing.{HasForm, routes, router_route-handlers, router_route-other}
use crinha.Tests.Toys.{toy_jansson, toy_libpq, one_client}
use crinha.Tests.DbRuns.{debit}
use crinha.Tests.ControllerRuns.{no_time}

abbrev cliente : Cliente
cliente = record { id = 7; limite = pos 1000; saldo = negsuc 499 }

is_limite_excedido_iff_example :
    (is_limite_excedido cliente debit ≡ false)
    ↔ (neg_ℤ (pos 1000) ≤ℤ (update_saldo_cliente cliente debit).saldo)
unfolding ◌-ℤ◌ neg_ℤ
is_limite_excedido_iff_example =
    is_limite_excedido_iff cliente debit refl (omega arith) (omega arith)

-- 2^63 - 1 from a balance of -2.
abbrev huge : Transacao
huge = record debit { valor = pos (2 ^ 63 - 1) }

abbrev overdrawn : Cliente
overdrawn = record cliente { saldo = negsuc 1 }

is_limite_excedido-wraps_example :
    (is_limite_excedido overdrawn huge ≡ false)
    × (ltb_ℤ (pos 0) (update_saldo_cliente overdrawn huge).saldo ≡ true)
unfolding ◌-ℤ◌
is_limite_excedido-wraps_example =
    is_limite_excedido-wraps overdrawn huge refl (omega arith) (omega arith) (omega arith)
      (omega arith) (omega arith)

extract_id_example :
    (extract_url_param (url_of (decimal 12) transacoes) ≡ ok (decimal 12))
    × (is_id_cliente_valido (decimal 12) ≡ true)
    × (to_bits (2 ^ 31) (atoi (decimal 12)) ≡ 12)
extract_id_example = extract_id 12 transacoes (omega arith)

match_url_find_iff_example :
    (router_match_url url_find_by_id (codes "/clientes/1/extrato") ≡ true) ↔ (
      (p : List ℕ) × (codes "/clientes/1/extrato" ≡ codes "/clientes/" ++ (p ++ codes "/extrato"))
      × AllIn id_set p)
match_url_find_iff_example = match_url_find_iff (codes "/clientes/1/extrato")

ones : (n : ℕ) → AllDigits (replicate n b'1')
ones zero = tt
ones (suc n) = (refl, ones n)

extract_url_param_digits_example :
    extract_url_param (url_of (replicate 128 b'1') extrato) ≡ fault out_of_bounds
extract_url_param_digits_example = extract_url_param_digits (replicate 128 b'1') extrato (ones 128)

abbrev get_a : Route (Unit {0})
get_a = record {
  method = http_get;
  url = codes "^a$";
  controller = some (λ url. pure (codes "A"));
  controller_body = none;
}

router_add_route-table_example :
    router_add_route (table_of (replicate 10 get_a) 0) get_a ≡ fault out_of_bounds
router_add_route-table_example = router_add_route-table (replicate 10 get_a) 0 get_a refl

router_route-handlers_example :
    (router_route
        (routes toy_jansson (toy_libpq one_client) no_time)
        http_get
        (url_of (codes "7") extrato)
        none
      ≡ cliente_controller_find_by_id toy_jansson
          (toy_libpq one_client)
          no_time
          (url_of (codes "7") extrato))
    × (router_route
          (routes toy_jansson (toy_libpq one_client) no_time)
          http_post
          (url_of (codes "7") transacoes)
          none
        ≡ cliente_controller_save_transacao toy_jansson
            (toy_libpq one_client)
            (url_of (codes "7") transacoes)
            none)
router_route-handlers_example =
    router_route-handlers toy_jansson (toy_libpq one_client) no_time (codes "7") none (refl, tt)

-- No P gives the one URL the form of the other: that is longer.
other_form : ¬ HasForm transacoes (codes "/clientes/7/extrato")
other_form (p, e, a) = absurd (
    omega (
      arith,
      ap length e,
      length-append (codes "/clientes/") (p ++ codes "/transacoes"),
      length-append p (codes "/transacoes"),
    ))

router_route-other_example :
    router_route
      (routes toy_jansson (toy_libpq one_client) no_time)
      3
      (codes "/clientes/7/extrato")
      none
    ≡ pure http_bad_request
router_route-other_example =
    router_route-other toy_jansson (toy_libpq one_client) no_time 3 (codes "/clientes/7/extrato")
      none (λ h. absurd (omega (arith, h))) (λ h. other_form)
