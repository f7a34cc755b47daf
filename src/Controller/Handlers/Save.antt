-- ===== src/Controller/Handlers/Save.antt =====
-- controller/cliente_controller.c: `cliente_controller_save_transacao` from the query to the answer.
use crinha.Prelude.{
  ℕ, suc, ◌≡◌, refl, ap, ◌∙◌, true, false, Bool, Bool-cases, inl, inr, Option, none, some, List,
  if◌then◌else◌, Exec, ok,
}
use crinha.Prelude.Int.{ℤ}
use crinha.Entity.{Cliente, Transacao}
use crinha.Db.Libpq.{Libpq, Drains, pgres_tuples_ok}
use crinha.Db.State.{Db, M, grown, lift, release, release-grown, grown-zero, bind_ok, pure}
use crinha.Repository.Sql.{insert_async_query}
use crinha.Repository.ClienteRepository.{cliente_service_find_one, cliente_repo_find_one}
use crinha.Repository.ClienteRepository.FindOne.{
  find_answer, after_find, cliente_of, find_one_missing, find_one_found,
}
use crinha.Repository.TransacaoRepository.{transacao_service_save_async}
use crinha.Repository.TransacaoRepository.InsertAsync.{save_async_lem, sent_from}
use crinha.Router.{http_not_found, http_unprocessable_entity}
use crinha.Controller.Jansson.{Jansson}
use crinha.Controller.Validation.{is_limite_excedido, update_saldo_cliente}
use crinha.Controller.Response.{respond, build_json_saldo}
use crinha.Controller.Handlers.{nova_transacao, salvar, com_cliente, processar, to_u32}

module _ (js : Jansson) (pq : Libpq) where
  open js use {Json, dumps}
  open pq use {World, result_status, ntuples, nfields, send_query}

  -- The answer that states the new balance.
  abbrev pub saldo_answer : Cliente → Transacao → Exec (List ℕ)
  saldo_answer c t = respond 256 (dumps (build_json_saldo js (update_saldo_cliente c t)))

  module _ (id_cliente : ℤ) (jv jt jd : Option Json) (t : Transacao) (d : Db pq)
      (made : nova_transacao js id_cliente jv jt jd ≡ ok t) (n : ℕ) (number : to_u32 id_cliente ≡ n)
      (answered : result_status (find_answer pq n d) ≡ pgres_tuples_ok) where
    finish :
        (c : Option Cliente) (resp : List ℕ) (s s' : Db pq)
        → cliente_repo_find_one pq n (grown d 1) ≡ ok (c, s)
        → com_cliente js pq c t s ≡ ok (resp, grown s' 1)
        → processar js pq id_cliente jv jt jd d ≡ ok (resp, s')
    unfolding processar cliente_service_find_one
    finish c resp s s' found done =
        bind_ok (lift (nova_transacao js id_cliente jv jt jd)) _ (grown d 1) (grown d 1) t
          (ap (λ m. lift m (grown d 1)) made)
        ∙ bind_ok (cliente_service_find_one pq (to_u32 id_cliente)) _ (grown d 1) s c
            (ap (λ k. cliente_service_find_one pq k (grown d 1)) number ∙ found)
        ∙ bind_ok (com_cliente js pq c t) _ s (grown s' 1) resp done
        ∙ bind_ok (release 1) _ (grown s' 1) (grown s' 0) tt (release-grown s' 1 1 0 refl)
        ∙ ap (λ x. ok (resp, x)) (grown-zero s')

    pub processar-unknown :
        ntuples (find_answer pq n d) ≡ 0
        → processar js pq id_cliente jv jt jd d ≡ ok (http_not_found, after_find pq n d)
    unfolding com_cliente
    processar-unknown z =
        finish none http_not_found (after_find pq n (grown d 1)) (after_find pq n d)
          (find_one_missing pq n (grown d 1) answered z) refl

    module _ (m : ℕ) (row : ntuples (find_answer pq n d) ≡ suc m)
        (columns : nfields (find_answer pq n d) ≡ 3) where
      abbrev client : Cliente
      client = cliente_of pq (find_answer pq n d)

      abbrev decide : M (Db pq) (List ℕ)
      decide =
          if is_limite_excedido client t
          then pure http_unprocessable_entity
          else salvar js pq client t

      finish_found :
          (resp : List ℕ) (s : Db pq)
          → decide (grown (grown (after_find pq n d) 1) 1) ≡ ok (resp, grown (grown s 1) 1)
          → processar js pq id_cliente jv jt jd d ≡ ok (resp, s)
      unfolding com_cliente
      finish_found resp s h =
          finish (some client) resp (grown (after_find pq n (grown d 1)) 1) s
            (find_one_found pq n (grown d 1) m answered row columns)
            (bind_ok decide _ (grown (grown (after_find pq n d) 1) 1) (grown (grown s 1) 1) resp h
              ∙ bind_ok (release 1) _ (grown (grown s 1) 1) (grown (grown s 1) 0) tt
                  (release-grown (grown s 1) 1 1 0 refl)
              ∙ ap (λ x. ok (resp, x)) (grown-zero (grown s 1)))

      -- Whether the command is sent, and the world then.
      abbrev pub sent_after : Drains pq → Bool × World
      sent_after drains =
          send_query d.pool (insert_async_query t) (sent_from pq drains (after_find pq n d))

      pub processar-over_limit :
          is_limite_excedido client t ≡ true
          → processar js pq id_cliente jv jt jd d
            ≡ ok (http_unprocessable_entity, after_find pq n d)
      processar-over_limit over = finish_found http_unprocessable_entity (after_find pq n d) (
          ap
            (λ b.
              (if b then pure http_unprocessable_entity else salvar js pq client t)
                (grown (grown (after_find pq n d) 1) 1))
            over)

      pub processar-accepted :
          (drains : Drains pq) {reply : List ℕ}
          → is_limite_excedido client t ≡ false
          → saldo_answer client t ≡ ok reply
          → processar js pq id_cliente jv jt jd d
            ≡ ok (
              if (sent_after drains).0 then reply else http_unprocessable_entity,
              record d { world = (sent_after drains).1 },
            )
      unfolding salvar
      processar-accepted drains {reply} within fits =
          let s : Db pq = grown (grown (after_find pq n d) 1) 1 in
          let (sent, w') = sent_after drains in
          finish_found (if sent then reply else http_unprocessable_entity) (record d { world = w' })
            (ap (λ b. (if b then pure http_unprocessable_entity else salvar js pq client t) s)
                within
              ∙ bind_ok (transacao_service_save_async pq t) _ s (record s { world = w' }) sent
                  (save_async_lem pq drains t s)
              ∙ elim (Bool-cases sent) [
                | inl y ↦ rw y (ap (λ x. lift x (record s { world = w' })) fits)
                | inr y ↦ rw y refl
              ])
