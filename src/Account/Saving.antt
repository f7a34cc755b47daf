-- ===== src/Account/Saving.antt =====
-- controller/cliente_controller.c: posting a transaction, against the specification of accounts.
use crinha.Prelude.{
  ℕ, ◌^◌, ◌<◌, ◌≡◌, refl, sym, ap, ◌∙◌, Bool, true, false, Bool-cases, inl, inr, none, some,
  Option-cases, List, Exec, ok, ok_injective, if◌then◌else◌,
}
use crinha.Prelude.Int.{pos, IsInt64, neg_ℤ, ltb_ℤ, ◌≤ℤ◌, ltb_ℤ_iff}
use crinha.Clib.Decimal.{decimal, atoi}
use crinha.Entity.{Cliente, Transacao}
use crinha.Db.Libpq.{Libpq, Drains}
use crinha.Db.State.{Db}
use crinha.Db.Drain.{drained-keeps}
use crinha.Repository.Sql.{insert_async_query}
use crinha.Repository.ClienteRepository.FindOne.{find_answer, after_find, cliente_of, connected}
use crinha.Repository.TransacaoRepository.InsertAsync.{sent_from}
use crinha.Router.{http_not_found, http_unprocessable_entity}
use crinha.Controller.Jansson.{Jansson}
use crinha.Controller.Validation.{
  is_limite_excedido, update_saldo_cliente, is_valor_transacao_valido,
}
use crinha.Controller.Validation.Identifier.{extract_id}
use crinha.Controller.Url.Param.{transacoes, url_of}
use crinha.Controller.Response.{http_200_json}
use crinha.Controller.Handlers.{nova_transacao, cliente_controller_save_transacao}
use crinha.Controller.Handlers.Fields.{AreValid, nova_transacao_lem}
use crinha.Controller.Handlers.Requests.{
  valor_of, tipo_of, descricao_of, save-unknown, save_over_limit_lem, save_accepted_lem,
}
use crinha.Account.{Table, balance, saldo_text, SaveStep, unknown, over_limit, unsent, accepted}
use crinha.Account.Bank.{Bank, IsPostable}
use crinha.Account.Reply.{Prints, respond-saldo}
use crinha.Account.Balance.{
  update_saldo_cliente-balance, over_limit_lem, within_lem, stored_lem, not_ltb,
}
use crinha.Account.Rows.{rows-connected, rows-after_find, shown, read, posted_self, posted_other}

-- Whether libpq takes the command that posts a transaction for a client, after the query for the
-- client.
abbrev pub is_sent : (pq : Libpq) → Drains pq → Db pq → ℕ → Transacao → Bool
is_sent pq drains d n t =
    (pq.send_query d.pool (insert_async_query t) (sent_from pq drains (after_find pq n d))).0

module _ (js : Jansson) (pq : Libpq) (drains : Drains pq) (prints : Prints js) (d : Db pq)
    (bank : Bank pq d.pool) where
  abbrev pub table : Table
  table = bank.rows d.world

  -- The rows when the command is sent are those at the start.
  rows-sent_from : (n m : ℕ) → bank.rows (sent_from pq drains (after_find pq n d)) m ≡ table m
  rows-sent_from n m =
      drained-keeps pq drains (λ w. bank.rows w m ≡ table m) d.pool (λ w q. bank.drains w m ∙ q)
        (λ r w q. bank.clears r w m ∙ q) (connected pq (after_find pq n d)).world
        (rows-connected pq d bank (after_find pq n d).world m ∙ rows-after_find pq d bank n m)

  module _ (n : ℕ) (small : n < 10 ^ 9) (text : List ℕ)
      (valid : AreValid js (valor_of js pq text) (tipo_of js pq text) (descricao_of js pq text))
      (t : Transacao)
      (made : nova_transacao js
          (atoi (decimal n))
          (valor_of js pq text)
          (tipo_of js pq text)
          (descricao_of js pq text)
        ≡ ok t) where
    abbrev request : Exec (List ℕ × Db pq)
    request = cliente_controller_save_transacao js pq (url_of (decimal n) transacoes) (some text) d

    -- What the handler has read from the body.
    fields_of : (t.id_cliente ≡ n) × (ltb_ℤ (pos 0) t.valor ≡ true)
    unfolding is_valor_transacao_valido
    fields_of =
        let (t', e, id, valor, _, _) =
          nova_transacao_lem js (atoi (decimal n)) (valor_of js pq text) (tipo_of js pq text)
            (descricao_of js pq text) valid.tipo_is valid.descricao_is in
        let same : t' ≡ t = ok_injective (sym e ∙ made) in
        let (_, _, number) = extract_id n transacoes small in
        (
          ap (λ x. x.id_cliente) (sym same) ∙ id ∙ number,
          ap (λ x. ltb_ℤ (pos 0) x.valor) (sym same) ∙ ap (ltb_ℤ (pos 0)) valor ∙ valid.positive,
        )

    -- The end of a request that does as the specification says.
    abbrev Refines : Type 0
    Refines =
        (reply : List ℕ) × (d' : Db pq) × (request ≡ ok (reply, d'))
        × (d'.pool ≡ d.pool)
        × (d'.live ≡ d.live)
        × SaveStep n t table (bank.rows d'.world) (is_sent pq drains d n t) reply

    refines_unknown : table n ≡ none → Refines
    refines_unknown gone =
        let (answered, no_row) =
          bank.missing n (connected pq d).world small (rows-connected pq d bank d.world n ∙ gone) in
        (
          http_not_found,
          after_find pq n d,
          save-unknown js pq n small text d valid t made answered no_row,
          refl,
          refl,
          unknown gone (rows-after_find pq d bank n),
        )

    module _ (postable : IsPostable t) (c : Cliente) (here : table n ≡ some c)
        (funded : neg_ℤ c.limite ≤ℤ c.saldo) (range : IsInt64 (balance c t)) where
      refines_over : is_limite_excedido c t ≡ true → Refines
      refines_over over =
          let (_, _, m, _) = bank.stored n d.world c here in
          let (debit, low) = over_limit_lem c t range m over in
          (
            http_unprocessable_entity,
            after_find pq n d,
            save_over_limit_lem js pq n small text d valid t made
                (shown pq d bank n small c here).status 0 (shown pq d bank n small c here).tuples
                (shown pq d bank n small c here).fields
                (ap (λ x. is_limite_excedido x t) (read pq d bank n small c here) ∙ over),
            refl,
            refl,
            over_limit here debit (ltb_ℤ_iff (balance c t) (neg_ℤ c.limite) low)
                (rows-after_find pq d bank n),
          )

      -- The client once the transaction is in the table.
      abbrev posted_client : Cliente
      unfolding balance
      posted_client = record c { saldo = balance c t }

      reply_text : List ℕ
      reply_text = http_200_json (saldo_text posted_client)

      sent_world : Bool × pq.World
      sent_world =
          pq.send_query d.pool (insert_async_query t) (sent_from pq drains (after_find pq n d))

      accepted_lem :
          is_limite_excedido c t ≡ false
          → request
            ≡ ok (
              if sent_world.0 then reply_text else http_unprocessable_entity,
              record d { world = sent_world.1 },
            )
      unfolding sent_world reply_text posted_client
      accepted_lem within =
          save_accepted_lem js pq n small text d valid t made
            (shown pq d bank n small c here).status 0 (shown pq d bank n small c here).tuples
            (shown pq d bank n small c here).fields drains
            (ap (λ x. is_limite_excedido x t) (read pq d bank n small c here) ∙ within)
            (respond-saldo js prints (update_saldo_cliente (cliente_of pq (find_answer pq n d)) t)
              ∙ ap (λ x. ok (http_200_json (saldo_text (update_saldo_cliente x t))))
                  (read pq d bank n small c here)
              ∙ ap (λ x. ok (http_200_json (saldo_text x)))
                  (update_saldo_cliente-balance c t range))

      refines_accepted : is_limite_excedido c t ≡ false → Refines
      unfolding sent_world reply_text posted_client
      refines_accepted within =
          let w = sent_from pq drains (after_find pq n d) in
          let (number, positive) = fields_of in
          let (_, _, m, _) = bank.stored n d.world c here in
          let low = within_lem c t range m funded positive within in
          elim (Bool-cases sent_world.0) [
            | inr no_command ↦ (
              http_unprocessable_entity,
              record d { world = sent_world.1 },
              accepted_lem within
                  ∙ ap
                      (λ b. ok (
                        if b then reply_text else http_unprocessable_entity,
                        record d { world = sent_world.1 },
                      ))
                      no_command,
              refl,
              refl,
              unsent no_command here (not_ltb c t low)
                  (λ k. bank.not_sent t w no_command k ∙ rows-sent_from n k),
            )
            | inl command ↦ (
              reply_text,
              record d { world = sent_world.1 },
              accepted_lem within
                  ∙ ap
                      (λ b. ok (
                        if b then reply_text else http_unprocessable_entity,
                        record d { world = sent_world.1 },
                      ))
                      command,
              refl,
              refl,
              accepted command here
                  (bank.posts t w postable command n
                    ∙ posted_self t (bank.rows w) n c number (rows-sent_from n n ∙ here)
                        (stored_lem c t postable.valor range low))
                  refl refl (not_ltb c t low)
                  (λ k other.
                    bank.posts t w postable command k
                    ∙ posted_other t (bank.rows w) n k number other
                    ∙ rows-sent_from n k),
            )
          ]

    -- Any valid transaction posted for a client's number below 10^9 is answered as the specification of
    -- accounts says: 404 if the client is unknown, 422 if a debit is over the limit, 422 if libpq does not
    -- take the command, and else 200 with the low 32 bits of the limit and of the balance that the
    -- table then holds. Only the last changes the table, in the row of the client. No block is kept. (The database is as `Bank` says,
    -- libpq as `Drains`, jansson as `Prints`; the amount is a 32-bit number and the description short
    -- ASCII without quotes, as `IsPostable` says; the client, if there is one, is within the limit before, and the new
    -- balance is a value of int64_t.)
    pub save-SaveStep :
        IsPostable t
        → ((c : Cliente) → table n ≡ some c → (neg_ℤ c.limite ≤ℤ c.saldo) × IsInt64 (balance c t))
        → (reply : List ℕ) × (d' : Db pq) × (cliente_controller_save_transacao js pq
              (url_of (decimal n) transacoes)
              (some text)
              d
            ≡ ok (reply, d'))
          × (d'.pool ≡ d.pool)
          × (d'.live ≡ d.live)
          × SaveStep n t (bank.rows d.world) (bank.rows d'.world) (is_sent pq drains d n t) reply
    save-SaveStep postable sound = elim (Option-cases (table n)) [
      | inl gone ↦ refines_unknown gone
      | inr (c, here) ↦
          let (funded, range) = sound c here in
          elim (Bool-cases (is_limite_excedido c t)) [
            | inl over ↦ refines_over postable c here funded range over
            | inr within ↦ refines_accepted postable c here funded range within
          ]
    ]
