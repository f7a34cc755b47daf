-- ===== src/Account/Statement.antt =====
-- controller/cliente_controller.c: the statement of a client, against the table.
use crinha.Prelude.{
  ℕ, suc, ◌^◌, ◌<◌, ◌≡◌, refl, sym, ◌∙◌, subst, length, inl, inr, ◌⊎◌, some, List, [], ok,
}
use crinha.Clib.Decimal.{decimal}
use crinha.Entity.{Cliente, Transacao}
use crinha.Db.Libpq.{Libpq, pgres_tuples_ok}
use crinha.Db.State.{Db}
use crinha.Repository.ClienteRepository.FindOne.{find_answer, after_find, cliente_of, connected}
use crinha.Repository.TransacaoRepository.FindLast.{last_answer, after_last}
use crinha.Controller.Jansson.{Jansson}
use crinha.Controller.Response.{current_time_as_iso_str, http_200_json}
use crinha.Controller.Url.Param.{Suffix, url_of}
use crinha.Controller.Handlers.{cliente_controller_find_by_id}
use crinha.Controller.Handlers.Statement.{answers}
use crinha.Account.Extrato.{Writes, extrato_text}
use crinha.Account.Extrato.Answers.{find_by_id-rows, find_by_id-empty}
use crinha.Repository.Rows.Read.{AreRows}
use crinha.Clib.Memory.{sprintf}
use crinha.Account.Bank.{Bank}
use crinha.Account.Rows.{rows-connected, rows-after_find, shown, read}

module _ (js : Jansson) (writes : Writes js) (pq : Libpq) (local_time : pq.World → List ℕ × ℕ)
    (d : Db pq) (bank : Bank pq d.pool) (n : ℕ) (small : n < 10 ^ 9) where
  abbrev pub after : Db pq
  after = after_last pq n (after_find pq n d)

  -- The rows of the query for the transactions: none, or some of six columns.
  abbrev pub Lists : Type 0
  Lists =
      (pq.result_status (last_answer pq n (after_find pq n d)) ≡ pgres_tuples_ok)
      × ((pq.ntuples (last_answer pq n (after_find pq n d)) ≡ 0)
          ⊎ ((k : ℕ) × (pq.ntuples (last_answer pq n (after_find pq n d)) ≡ suc k)
              × (pq.nfields (last_answer pq n (after_find pq n d)) ≡ 6)))

  rows-after : (m : ℕ) → bank.rows after.world m ≡ bank.rows d.world m
  rows-after m =
      bank.clears _ _ m
      ∙ bank.lists n (connected pq (after_find pq n d)).world m
      ∙ rows-connected pq d bank (after_find pq n d).world m
      ∙ rows-after_find pq d bank n m

  -- The request is answered with the statement of a client and of the rows.
  abbrev Shown : Cliente → List ℕ → Type 0
  Shown c date =
      (ts : List Transacao) × (cliente_controller_find_by_id js pq local_time
          (url_of (decimal n) Suffix.extrato) d
        ≡ answers js pq local_time
            (sprintf 2048 (http_200_json (extrato_text writes.text_of_string c date ts))) after)
      × (length ts ≡ pq.ntuples (last_answer pq n (after_find pq n d)))
      × AreRows pq (last_answer pq n (after_find pq n d)) 0 ts

  -- A client's statement, asked for with the number, below 10^9, of a client in the table, is answered by
  -- 200 with the JSON of the balance that the table holds, the date, the limit, and the transactions of
  -- the rows of the second query, in their order, of each number the low 32 bits (a transaction with
  -- a string that is no UTF-8 is left out); the table and the blocks are left as they were. It faults exactly where that does not fit into the buffer of 2048
  -- bytes. (The database is as `Bank` says, it answers the query for the transactions, the clock shows a
  -- date, jansson packs and prints as `Writes` says.)
  pub find_by_id-Bank :
      (c : Cliente) {date : List ℕ}
      → bank.rows d.world n ≡ some c
      → current_time_as_iso_str (local_time after.world) ≡ ok date
      → Lists
      → ((ts : List Transacao) × (cliente_controller_find_by_id js pq local_time
              (url_of (decimal n) Suffix.extrato)
              d
            ≡ answers js pq local_time
                (sprintf 2048 (http_200_json (extrato_text writes.text_of_string c date ts)))
                after)
          × (length ts ≡ pq.ntuples (last_answer pq n (after_find pq n d)))
          × AreRows pq (last_answer pq n (after_find pq n d)) 0 ts)
        × (after.live ≡ d.live)
        × ((m : ℕ) → bank.rows after.world m ≡ bank.rows d.world m)
  find_by_id-Bank c {date} here clock (status, rows) =
      let s = shown pq d bank n small c here in
      let same = read pq d bank n small c here in
      let outcome : Shown (cliente_of pq (find_answer pq n d)) date = elim rows [
        | inl none_yet ↦ (
          [],
          find_by_id-empty js writes pq local_time n small d s.status 0 s.tuples s.fields clock
              status none_yet,
          sym none_yet,
          tt,
        )
        | inr (k, some_rows, columns) ↦
            let (ts, e, l, r) =
              find_by_id-rows js writes pq local_time n small d s.status 0 s.tuples s.fields k clock
                status some_rows columns in
            (ts, e, l ∙ sym some_rows, r)
      ] in
      (subst (λ x. Shown x date) same outcome, refl, rows-after)
