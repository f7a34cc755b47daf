-- ===== src/Account/Posting.antt =====
-- controller/cliente_controller.c: a valid transaction posted for a client whom the query finds.
use crinha.Prelude.{
  ℕ, suc, ◌^◌, ◌<◌, ◌≡◌, ap, ◌∙◌, true, false, some, List, if◌then◌else◌, Exec, ok,
}
use crinha.Prelude.Int.{neg_ℤ, ltb_ℤ, ◌≤ℤ◌, IsInt64}
use crinha.Clib.Decimal.{atoi, decimal}
use crinha.Entity.{Cliente, Transacao}
use crinha.Db.Libpq.{Libpq, Drains, pgres_tuples_ok}
use crinha.Db.State.{Db}
use crinha.Db.Drain.{DrainsTo, drained-DrainsTo}
use crinha.Repository.Sql.{insert_async_query}
use crinha.Repository.ClienteRepository.FindOne.{find_answer, after_find, cliente_of, connected}
use crinha.Repository.TransacaoRepository.InsertAsync.{sent_from}
use crinha.Router.{http_unprocessable_entity}
use crinha.Controller.Jansson.{Jansson}
use crinha.Controller.Validation.{is_credito, update_saldo_cliente}
use crinha.Controller.Url.Param.{transacoes, url_of}
use crinha.Controller.Response.{http_200_json}
use crinha.Controller.Handlers.{nova_transacao, cliente_controller_save_transacao}
use crinha.Controller.Handlers.Fields.{AreValid}
use crinha.Controller.Handlers.Requests.{
  valor_of, tipo_of, descricao_of, save_over_limit_lem, save_accepted_lem,
}
use crinha.Account.{balance, saldo_text}
use crinha.Account.Balance.{update_saldo_cliente-balance, over_lem, not_over_lem}
use crinha.Account.Reply.{Prints, respond-saldo}

module _ (js : Jansson) (pq : Libpq) (n : ℕ) (small : n < 10 ^ 9) (text : List ℕ) (d : Db pq)
    (valid : AreValid js (valor_of js pq text) (tipo_of js pq text) (descricao_of js pq text))
    (t : Transacao)
    (made : nova_transacao js
        (atoi (decimal n))
        (valor_of js pq text)
        (tipo_of js pq text)
        (descricao_of js pq text)
      ≡ ok t)
    (answered : pq.result_status (find_answer pq n d) ≡ pgres_tuples_ok) (m : ℕ)
    (row : pq.ntuples (find_answer pq n d) ≡ suc m)
    (columns : pq.nfields (find_answer pq n d) ≡ 3) where
  abbrev client : Cliente
  client = cliente_of pq (find_answer pq n d)

  abbrev request : Exec (List ℕ × Db pq)
  request = cliente_controller_save_transacao js pq (url_of (decimal n) transacoes) (some text) d

  -- A valid debit posted for a client whom the query finds (the number is below 10^9, the rows have
  -- three fields), which would leave a balance below minus the client's limit, is answered by 422;
  -- nothing is inserted, and no block is kept. (That balance and minus the limit are values of int64_t.)
  pub save-over_limit :
      is_credito t ≡ false
      → IsInt64 (balance client t)
      → IsInt64 (neg_ℤ client.limite)
      → ltb_ℤ (balance client t) (neg_ℤ client.limite) ≡ true
      → request ≡ ok (http_unprocessable_entity, after_find pq n d)
  save-over_limit debit range limit low =
      save_over_limit_lem js pq n small text d valid t made answered m row columns
        (over_lem client t range limit debit low)

  -- A valid transaction posted for a client whom the query finds (the number is below 10^9, the rows
  -- have three fields), a credit or a debit that leaves the balance not below minus the limit, takes and
  -- frees what is pending on the connection, then sends the one command that inserts it, and no block
  -- is kept. The answer is 200 with the limit and the balance that the transaction leaves, of each the
  -- low 32 bits, or 422 if libpq does not take the command. (libpq returns NULL once nothing is
  -- pending, jansson prints an object of two integers; the balance and minus the limit are values of
  -- int64_t.)
  pub save-accepted :
      Drains pq
      → Prints js
      → IsInt64 (balance client t)
      → IsInt64 (neg_ℤ client.limite)
      → (is_credito t ≡ false → neg_ℤ client.limite ≤ℤ balance client t)
      → (w : pq.World) × DrainsTo pq d.pool (connected pq (after_find pq n d)).world w
        × (request
            ≡ ok (
              if (pq.send_query d.pool (insert_async_query t) w).0
                  then http_200_json (saldo_text (record client { saldo = balance client t }))
                  else http_unprocessable_entity,
              record d { world = (pq.send_query d.pool (insert_async_query t) w).1 },
            ))
  save-accepted drains prints range limit within = (
    sent_from pq drains (after_find pq n d),
    drained-DrainsTo pq drains d.pool (connected pq (after_find pq n d)).world,
    save_accepted_lem js pq n small text d valid t made answered m row columns drains
        (not_over_lem client t range limit within)
        (respond-saldo js prints (update_saldo_cliente client t)
          ∙ ap (λ x. ok (http_200_json (saldo_text x)))
              (update_saldo_cliente-balance client t range)),
  )
