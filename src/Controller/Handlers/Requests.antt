-- ===== src/Controller/Handlers/Requests.antt =====
-- controller/cliente_controller.c: the two handlers on the URLs that their routes match.
use crinha.Prelude.{
  ℕ, suc, ◌^◌, ◌<◌, ◌≡◌, ap, ◌∙◌, Bool, true, false, Option, none, some, List, [], codes,
  if◌then◌else◌, Exec, ok, fault, null_pointer,
}
use crinha.Clib.Memory.{c_str}
use crinha.Clib.Decimal.{atoi, decimal}
use crinha.Clib.Decimal.RoundTrip.{AllDigits}
use crinha.Clib.Regex.Matching.{AllIn}
use crinha.Entity.{Cliente, Transacao}
use crinha.Db.Libpq.{Libpq, Drains, pgres_tuples_ok}
use crinha.Db.State.{Db, bind_ok, bind_fault, lift, pure}
use crinha.Repository.Sql.{insert_async_query}
use crinha.Repository.ClienteRepository.FindOne.{find_answer, after_find, cliente_of}
use crinha.Repository.TransacaoRepository.InsertAsync.{sent_from}
use crinha.Router.{http_not_found, http_unprocessable_entity, http_bad_request}
use crinha.Controller.Jansson.{Jansson}
use crinha.Controller.Validation.{
  is_limite_excedido, is_id_cliente_valido, is_descricao_transacao_valida,
}
use crinha.Controller.Validation.Identifier.{extract_id}
use crinha.Controller.Url.{extract_url_param}
use crinha.Controller.Url.Param.{extrato, transacoes, url_of, id_set, extract_url_param_other}
use crinha.Controller.Handlers.{
  nova_transacao, processar, campos_validos, com_corpo, cliente_controller_save_transacao,
  cliente_controller_find_by_id,
}
use crinha.Controller.Handlers.Fields.{AreValid, AreValid-campos_validos, campos_validos-null}
use crinha.Controller.Handlers.Invalid.{IsInvalid, IsInvalid-campos_validos}
use crinha.Controller.Handlers.Save.{
  saldo_answer, processar-unknown, processar-over_limit, processar-accepted,
}

module _ (js : Jansson) (pq : Libpq) where
  open js use {Json, loads, object_get, string_value}
  open pq use {World, result_status, ntuples, nfields, send_query}

  -- The fields of a body.
  abbrev pub campo : List ℕ → List ℕ → Option Json
  campo text name = object_get (loads (c_str text)) name

  abbrev pub valor_of : List ℕ → Option Json
  valor_of text = campo text (codes "valor")

  abbrev pub tipo_of : List ℕ → Option Json
  tipo_of text = campo text (codes "tipo")

  abbrev pub descricao_of : List ℕ → Option Json
  descricao_of text = campo text (codes "descricao")

  -- A parameter that is no number is answered by 400 where a statement is asked for, by 422 where a
  -- transaction is posted, without a query.
  pub other_param :
      (local_time : World → List ℕ × ℕ) (p text : List ℕ) (d : Db pq)
      → AllIn id_set p
      → ¬ AllDigits p
      → (cliente_controller_find_by_id js pq local_time (url_of p extrato) d
          ≡ ok (http_bad_request, d))
        × (cliente_controller_save_transacao js pq (url_of p transacoes) (some text) d
            ≡ ok (http_unprocessable_entity, d))
  unfolding cliente_controller_find_by_id cliente_controller_save_transacao is_id_cliente_valido
  other_param local_time p text d a n = (
    bind_ok (lift (extract_url_param (url_of p extrato))) _ d d []
        (ap (λ x. lift x d) (extract_url_param_other p extrato a n)),
    bind_ok (lift (extract_url_param (url_of p transacoes))) _ d d []
        (ap (λ x. lift x d) (extract_url_param_other p transacoes a n)),
  )

  module _ (n : ℕ) (small : n < 10 ^ 9) (text : List ℕ) (d : Db pq) where
    abbrev request : Exec (List ℕ × Db pq)
    request = cliente_controller_save_transacao js pq (url_of (decimal n) transacoes) (some text) d

    abbrev condition : Exec Bool
    condition = campos_validos js (valor_of text) (tipo_of text) (descricao_of text)

    to_com_corpo : request ≡ com_corpo js pq (atoi (decimal n)) text d
    unfolding cliente_controller_save_transacao
    to_com_corpo =
        let (e, v, _) = extract_id n transacoes small in
        bind_ok (lift (extract_url_param (url_of (decimal n) transacoes))) _ d d (decimal n)
          (ap (λ x. lift x d) e)
        ∙ ap
            (λ b.
              (if b
                  then com_corpo js pq (atoi (decimal n)) text
                  else pure http_unprocessable_entity)
                d)
            v

    -- A transaction posted for a client's number below 10^9 whose `tipo` is missing or no string, with a
    -- valid `descricao`, stops the server: the test of `tipo` reads through NULL.
    pub save-null :
        is_descricao_transacao_valida (string_value (descricao_of text)) ≡ true
        → string_value (tipo_of text) ≡ none
        → request ≡ fault null_pointer
    unfolding com_corpo
    save-null v t =
        to_com_corpo
        ∙ bind_fault (lift condition) _ d null_pointer (
            ap (λ x. lift x d)
              (campos_validos-null js (valor_of text) (tipo_of text) (descricao_of text) v t))

    -- A transaction posted for a client's number below 10^9 is answered by 422, without a query, if its
    -- description is no string, is empty or is longer than 10 characters, or if its type is a string, and
    -- the type is neither `c` nor `d` or the amount is no integer above 0.
    pub save-invalid :
        IsInvalid js (valor_of text) (tipo_of text) (descricao_of text)
        → request ≡ ok (http_unprocessable_entity, d)
    unfolding com_corpo
    save-invalid v =
        to_com_corpo
        ∙ bind_ok (lift condition) _ d d false (
            ap (λ x. lift x d)
              (IsInvalid-campos_validos js (valor_of text) (tipo_of text) (descricao_of text) v))

    module _ (valid : AreValid js (valor_of text) (tipo_of text) (descricao_of text))
        (t : Transacao)
        (made : nova_transacao js
            (atoi (decimal n))
            (valor_of text)
            (tipo_of text)
            (descricao_of text)
          ≡ ok t)
        (answered : result_status (find_answer pq n d) ≡ pgres_tuples_ok) where
      to_processar :
          request
          ≡ processar js pq (atoi (decimal n)) (valor_of text) (tipo_of text) (descricao_of text) d
      unfolding com_corpo
      to_processar =
          to_com_corpo
          ∙ bind_ok (lift condition) _ d d true (
              ap (λ x. lift x d)
                (AreValid-campos_validos js (valor_of text) (tipo_of text) (descricao_of text)
                  valid))

      -- A valid transaction posted for a client's number below 10^9 whom the query for the client does
      -- not find, without failing, is answered by 404; nothing is inserted, and no block is kept.
      pub save-unknown :
          ntuples (find_answer pq n d) ≡ 0 → request ≡ ok (http_not_found, after_find pq n d)
      save-unknown z =
          to_processar
          ∙ processar-unknown js pq (atoi (decimal n)) _ _ _ t d made n
              (extract_id n transacoes small).2 answered z

      module _ (m : ℕ) (row : ntuples (find_answer pq n d) ≡ suc m)
          (columns : nfields (find_answer pq n d) ≡ 3) where
        abbrev client : Cliente
        client = cliente_of pq (find_answer pq n d)

        pub save_over_limit_lem :
            is_limite_excedido client t ≡ true
            → request ≡ ok (http_unprocessable_entity, after_find pq n d)
        save_over_limit_lem over =
            to_processar
            ∙ processar-over_limit js pq (atoi (decimal n)) _ _ _ t d made n
                (extract_id n transacoes small).2 answered m row columns over

        pub save_accepted_lem :
            (drains : Drains pq) {reply : List ℕ}
            → is_limite_excedido client t ≡ false
            → saldo_answer js pq client t ≡ ok reply
            → (let (sent, w) =
                  send_query d.pool
                    (insert_async_query t)
                    (sent_from pq drains (after_find pq n d)) in
                request
                ≡ ok (if sent then reply else http_unprocessable_entity, record d { world = w }))
        save_accepted_lem drains within fits =
            to_processar
            ∙ processar-accepted js pq (atoi (decimal n)) _ _ _ t d made n
                (extract_id n transacoes small).2 answered m row columns drains within fits
