-- ===== src/Controller/Handlers/Statement.antt =====
-- controller/cliente_controller.c: `cliente_controller_find_by_id` from the queries to the answer.
use crinha.Prelude.{
  ℕ, zero, suc, ◌^◌, ◌<◌, ◌≡◌, refl, sym, ap, ◌∙◌, inl, inr, Option, none, some, List, [], ◌∷◌,
  length, arith, Exec, ok, fault, Exec-cases,
}
use crinha.Clib.Decimal.{atoi, decimal}
use crinha.Entity.{Cliente, Transacao}
use crinha.Db.Libpq.{Libpq, pgres_tuples_ok}
use crinha.Db.State.{Db, grown, lift, release, release-grown, grown-zero, bind_ok, bind_fault}
use crinha.Repository.ClienteRepository.{cliente_service_find_one}
use crinha.Repository.ClienteRepository.FindOne.{
  find_answer, after_find, cliente_of, find_one_missing, find_one_found,
}
use crinha.Repository.TransacaoRepository.{
  TransacaoList, transacao_service_find_last_10, transacao_repo_find_last_10,
  transacao_repo_free_list, transacao_service_free_list,
}
use crinha.Repository.Rows.Read.{AreRows}
use crinha.Repository.TransacaoRepository.FindLast.{
  last_answer, after_last, find_last-rows, find_last-empty,
}
use crinha.Router.{http_not_found}
use crinha.Controller.Jansson.{Jansson}
use crinha.Controller.Response.{
  respond, current_time_as_iso_str, build_json_saldo_data, build_json_transacoes,
  build_json_extrato,
}
use crinha.Controller.Validation.Identifier.{extract_id}
use crinha.Controller.Url.{extract_url_param}
use crinha.Controller.Url.Param.{Suffix, url_of}
use crinha.Controller.Handlers.{
  listed, elements, to_u32, get_current_time_as_iso_str, extrato, cliente_controller_find_by_id,
}

listed-all : (ts : List Transacao) (n : ℕ) → length ts ≡ n → listed n ts ≡ ok ts
unfolding listed
listed-all [] zero e = refl
listed-all [] (suc n) e = absurd (omega arith)
listed-all (t ∷ ts) zero e = absurd (omega arith)
listed-all (t ∷ ts) (suc n) e = rw (listed-all ts n (omega arith)) refl

module _ (js : Jansson) (pq : Libpq) (local_time : pq.World → List ℕ × ℕ) where
  open pq use {World, result_status, ntuples, nfields}

  -- The answer with the balance, the date, and the transactions.
  abbrev pub statement : Cliente → List ℕ → List Transacao → Exec (List ℕ)
  statement c date ts = respond 2048 (
      js.dumps
        (build_json_extrato js (build_json_saldo_data js c date) (build_json_transacoes js ts)))

  -- The outcome of an answer that leaves the state `s`.
  abbrev pub answers : Exec (List ℕ) → Db pq → Exec (List ℕ × Db pq)
  answers (ok reply) s = ok (reply, s)
  answers (fault e) s = fault e

  module _ (n : ℕ) (small : n < 10 ^ 9) (d : Db pq)
      (answered : result_status (find_answer pq n d) ≡ pgres_tuples_ok) where
    abbrev request : Exec (List ℕ × Db pq)
    request = cliente_controller_find_by_id js pq local_time (url_of (decimal n) Suffix.extrato) d

    to_extrato :
        (c : Option Cliente) (s : Db pq)
        → cliente_service_find_one pq n d ≡ ok (c, s)
        → request ≡ extrato js pq local_time (atoi (decimal n)) c s
    unfolding cliente_controller_find_by_id
    to_extrato c s found =
        let (e, v, k) = extract_id n Suffix.extrato small in
        bind_ok (lift (extract_url_param (url_of (decimal n) Suffix.extrato))) _ d d (decimal n)
          (ap (λ x. lift x d) e)
        ∙ rw v (
            bind_ok (cliente_service_find_one pq (to_u32 (atoi (decimal n)))) _ d s c
              (ap (λ i. cliente_service_find_one pq i d) k ∙ found))

    -- A statement asked for with a client's number below 10^9 whom the query for the client does not
    -- find, without failing, is answered by 404, and no block is kept.
    pub find_by_id-unknown :
        ntuples (find_answer pq n d) ≡ 0 → request ≡ ok (http_not_found, after_find pq n d)
    unfolding cliente_service_find_one extrato
    find_by_id-unknown z = to_extrato none (after_find pq n d) (find_one_missing pq n d answered z)

    module _ (m : ℕ) (row : ntuples (find_answer pq n d) ≡ suc m)
        (columns : nfields (find_answer pq n d) ≡ 3) where
      abbrev client : Cliente
      client = cliente_of pq (find_answer pq n d)

      abbrev found : Db pq
      found = after_find pq n d

      abbrev after : Db pq
      after = after_last pq n found

      finish :
          (l : TransacaoList) (ts : List Transacao) (date : List ℕ) (b : ℕ)
          → transacao_repo_find_last_10 pq n (grown found 1) ≡ ok (l, grown (grown after 1) b)
          → current_time_as_iso_str (local_time after.world) ≡ ok date
          → elements l ≡ ok ts
          → transacao_repo_free_list pq l (grown (grown after 1) b) ≡ ok (tt, grown after 1)
          → request ≡ answers (statement client date ts) after
      unfolding extrato cliente_service_find_one transacao_service_find_last_10
          get_current_time_as_iso_str transacao_service_free_list
      finish l ts date b queried clock all freed =
          to_extrato (some client) (grown found 1) (find_one_found pq n d m answered row columns)
          ∙ bind_ok (transacao_service_find_last_10 pq (to_u32 (atoi (decimal n)))) _
              (grown found 1) (grown (grown after 1) b) l
              (ap (λ i. transacao_repo_find_last_10 pq i (grown found 1))
                  (extract_id n Suffix.extrato small).2
                ∙ queried)
          ∙ bind_ok (get_current_time_as_iso_str js pq local_time) _ (grown (grown after 1) b)
              (grown (grown after 1) b) date (ap (λ x. lift x (grown (grown after 1) b)) clock)
          ∙ bind_ok (lift (elements l)) _ (grown (grown after 1) b) (grown (grown after 1) b) ts
              (ap (λ x. lift x (grown (grown after 1) b)) all)
          ∙ elim (Exec-cases (statement client date ts)) [
            | inr (e, faulted) ↦
                bind_fault (lift (statement client date ts)) _ (grown (grown after 1) b) e
                  (ap (λ x. lift x (grown (grown after 1) b)) faulted)
                ∙ sym (ap (λ x. answers x after) faulted)
            | inl (reply, fits) ↦
                bind_ok (lift (statement client date ts)) _ (grown (grown after 1) b)
                  (grown (grown after 1) b) reply (ap (λ x. lift x (grown (grown after 1) b)) fits)
                ∙ bind_ok (transacao_service_free_list pq l) _ (grown (grown after 1) b)
                    (grown after 1) tt freed
                ∙ bind_ok (release 1) _ (grown after 1) (grown after 0) tt
                    (release-grown after 1 1 0 refl)
                ∙ ap (λ x. ok (reply, x)) (grown-zero after)
                ∙ sym (ap (λ x. answers x after) fits)
          ]

      pub find_by_id_rows_lem :
          (k : ℕ) {date : List ℕ}
          → current_time_as_iso_str (local_time after.world) ≡ ok date
          → result_status (last_answer pq n found) ≡ pgres_tuples_ok
          → ntuples (last_answer pq n found) ≡ suc k
          → nfields (last_answer pq n found) ≡ 6
          → (ts : List Transacao) × (request ≡ answers (statement client date ts) after)
            × (length ts ≡ suc k)
            × AreRows pq (last_answer pq n found) 0 ts
      unfolding transacao_repo_free_list
      find_by_id_rows_lem k {date} clock h z f =
          let (ts, e, l, r) = find_last-rows pq n (grown found 1) k h z f in
          (
            ts,
            finish (record { size = suc k; values = some ts }) ts date 1 e clock
                (listed-all ts (suc k) l)
                (release-grown (grown after 1) 1 1 0 refl
                  ∙ ap (λ s. ok (tt, s)) (grown-zero (grown after 1))),
            l,
            r,
          )

      pub find_by_id_empty_lem :
          {date : List ℕ}
          → current_time_as_iso_str (local_time after.world) ≡ ok date
          → result_status (last_answer pq n found) ≡ pgres_tuples_ok
          → ntuples (last_answer pq n found) ≡ 0
          → request ≡ answers (statement client date []) after
      unfolding transacao_repo_free_list
      find_by_id_empty_lem {date} clock h z =
          finish (record { size = 0; values = none }) [] date 0
            (find_last-empty pq n (grown found 1) h z
              ∙ ap (λ s. ok (record { size = 0; values = none }, s))
                  (sym (grown-zero (grown after 1))))
            clock refl (ap (λ s. ok (tt, s)) (grown-zero (grown after 1)))
