-- ===== src/Tests/ControllerRuns.antt =====
-- controller/: requests to the two handlers.
use crinha.Prelude.{ℕ, ◌≡◌, refl, some, List, codes, arith, ok, fault, null_pointer}
use crinha.Prelude.Int.{pos, wrap32}
use crinha.Clib.Memory.{c_str, write_at, overwrite}
use crinha.Clib.Decimal.{decimal, atoi, atol, digits, signed_value, digits_value}
use crinha.Entity.{Transacao}
use crinha.Router.{http_bad_request, http_not_found, http_unprocessable_entity}
use crinha.Util.StringUtil.{strzcpy, string_util_utf8_strlen, is_continuation}
use crinha.Controller.Validation.{
  is_tipo_transacao_valido, is_descricao_transacao_valida, is_valor_transacao_valido,
}
use crinha.Controller.Url.Param.{extrato, transacoes, url_of}
use crinha.Controller.Handlers.{
  cliente_controller_find_by_id, cliente_controller_save_transacao, nova_transacao, to_u32,
}
use crinha.Controller.Handlers.Invalid.{no_integer}
use crinha.Controller.Handlers.Fields.{AreValid, nova_transacao_lem}
use crinha.Controller.Handlers.Requests.{
  other_param, save-null, save-invalid, save-unknown, valor_of, tipo_of, descricao_of,
}
use crinha.Tests.Toys.{toy_jansson, toy_libpq, toy_db, one_client, no_client, toy_number, toy_text}
use crinha.Tests.DbRuns.{debit}

abbrev pub no_time : List (List ℕ) → List ℕ × ℕ
no_time w = (codes "2024-02-01T00:00:00", 0)

other_param_example :
    (cliente_controller_find_by_id toy_jansson
        (toy_libpq one_client)
        no_time
        (url_of (codes "x1") extrato)
        (toy_db one_client)
      ≡ ok (http_bad_request, toy_db one_client))
    × (cliente_controller_save_transacao toy_jansson
          (toy_libpq one_client)
          (url_of (codes "x1") transacoes)
          (some (codes "1"))
          (toy_db one_client)
        ≡ ok (http_unprocessable_entity, toy_db one_client))
other_param_example =
    other_param toy_jansson (toy_libpq one_client) no_time (codes "x1") (codes "1")
      (toy_db one_client) (refl, (refl, tt)) (λ h. cc)

fields-AreValid :
    AreValid toy_jansson
      (valor_of toy_jansson (toy_libpq one_client) (codes "1"))
      (tipo_of toy_jansson (toy_libpq one_client) (codes "1"))
      (descricao_of toy_jansson (toy_libpq one_client) (codes "1"))
unfolding is_tipo_transacao_valido is_descricao_transacao_valida string_util_utf8_strlen
    is_continuation is_valor_transacao_valido
fields-AreValid = record {
  tipo = codes "d";
  descricao = codes "descricao";
  tipo_is = refl;
  descricao_is = refl;
  tipo_ok = refl;
  descricao_ok = refl;
  integer = refl;
  positive = refl;
}

made :
    nova_transacao toy_jansson
      (atoi (decimal 7))
      (some (toy_number (pos 100)))
      (some (toy_text (codes "d")))
      (some (toy_text (codes "descricao")))
    ≡ ok debit
unfolding nova_transacao strzcpy write_at overwrite atoi decimal digits atol signed_value
    digits_value wrap32
made = refl

save-null_example :
    cliente_controller_save_transacao toy_jansson
      (toy_libpq one_client)
      (url_of (decimal 7) transacoes)
      (some (codes "0"))
      (toy_db one_client)
    ≡ fault null_pointer
unfolding is_descricao_transacao_valida string_util_utf8_strlen is_continuation
save-null_example =
    save-null toy_jansson (toy_libpq one_client) 7 (omega arith) (codes "0") (toy_db one_client)
      refl refl

save-invalid_example :
    cliente_controller_save_transacao toy_jansson
      (toy_libpq one_client)
      (url_of (decimal 7) transacoes)
      (some (codes "2"))
      (toy_db one_client)
    ≡ ok (http_unprocessable_entity, toy_db one_client)
save-invalid_example =
    save-invalid toy_jansson (toy_libpq one_client) 7 (omega arith) (codes "2") (toy_db one_client)
      (no_integer refl refl)

save-unknown_example :
    cliente_controller_save_transacao toy_jansson
      (toy_libpq no_client)
      (url_of (decimal 7) transacoes)
      (some (codes "1"))
      (toy_db no_client)
    ≡ ok (http_not_found, toy_db no_client)
save-unknown_example =
    save-unknown toy_jansson (toy_libpq no_client) 7 (omega arith) (codes "1") (toy_db no_client)
      fields-AreValid debit made refl refl

nova_transacao_lem_example :
    (t : Transacao) × (nova_transacao toy_jansson
        (pos 7)
        (some (toy_number (pos 100)))
        (some (toy_text (codes "d")))
        (some (toy_text (codes "descricao")))
      ≡ ok t)
    × (t.id_cliente ≡ to_u32 (pos 7))
    × (t.valor ≡ pos 100)
    × (c_str t.tipo ≡ codes "d")
    × (c_str t.descricao ≡ codes "descricao")
nova_transacao_lem_example =
    nova_transacao_lem toy_jansson (pos 7) (some (toy_number (pos 100)))
      (some (toy_text (codes "d"))) (some (toy_text (codes "descricao"))) refl refl
