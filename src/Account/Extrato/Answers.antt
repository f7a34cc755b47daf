-- ===== src/Account/Extrato/Answers.antt =====
-- controller/cliente_controller.c: a client's statement, asked for and answered.
use crinha.Prelude.{ℕ, suc, ◌^◌, ◌<◌, ◌≡◌, ap, ◌∙◌, List, [], length, Exec, ok}
use crinha.Clib.Memory.{sprintf}
use crinha.Clib.Decimal.{decimal}
use crinha.Entity.{Cliente, Transacao}
use crinha.Db.Libpq.{Libpq, pgres_tuples_ok}
use crinha.Db.State.{Db}
use crinha.Repository.ClienteRepository.FindOne.{find_answer, after_find, cliente_of}
use crinha.Repository.TransacaoRepository.FindLast.{last_answer, after_last}
use crinha.Repository.Rows.Read.{AreRows}
use crinha.Controller.Jansson.{Jansson}
use crinha.Controller.Response.{current_time_as_iso_str, http_200_json}
use crinha.Controller.Url.Param.{Suffix, url_of}
use crinha.Controller.Handlers.{cliente_controller_find_by_id}
use crinha.Controller.Handlers.Statement.{answers, find_by_id_rows_lem, find_by_id_empty_lem}
use crinha.Account.Extrato.{Writes, extrato_text}
use crinha.Account.Extrato.Printed.{respond-extrato}

module _ (js : Jansson) (writes : Writes js) (pq : Libpq) (local_time : pq.World → List ℕ × ℕ)
    (n : ℕ) (small : n < 10 ^ 9) (d : Db pq)
    (answered : pq.result_status (find_answer pq n d) ≡ pgres_tuples_ok) (m : ℕ)
    (row : pq.ntuples (find_answer pq n d) ≡ suc m)
    (columns : pq.nfields (find_answer pq n d) ≡ 3) where
  abbrev pub client : Cliente
  client = cliente_of pq (find_answer pq n d)

  abbrev pub after : Db pq
  after = after_last pq n (after_find pq n d)

  abbrev request : Exec (List ℕ × Db pq)
  request = cliente_controller_find_by_id js pq local_time (url_of (decimal n) Suffix.extrato) d

  -- A statement asked for with the number, below 10^9, of a client whom the query finds is answered by
  -- 200 with the JSON of the client's balance, the date, the limit, and the transactions of the second
  -- query's rows, in their order, the strings cut to their arrays, of each number the low 32 bits (a
  -- transaction with a string that is no UTF-8 is left out); every block is freed. It faults exactly where that does not fit into the buffer of 2048 bytes. (The clock
  -- shows a date; the rows of the client have three fields, those of the transactions six; jansson packs
  -- and prints as `Writes` says.)
  pub find_by_id-rows :
      (k : ℕ) {date : List ℕ}
      → current_time_as_iso_str (local_time after.world) ≡ ok date
      → pq.result_status (last_answer pq n (after_find pq n d)) ≡ pgres_tuples_ok
      → pq.ntuples (last_answer pq n (after_find pq n d)) ≡ suc k
      → pq.nfields (last_answer pq n (after_find pq n d)) ≡ 6
      → (ts : List Transacao) × (request
          ≡ answers js pq local_time
              (sprintf 2048 (http_200_json (extrato_text writes.text_of_string client date ts)))
              after)
        × (length ts ≡ suc k)
        × AreRows pq (last_answer pq n (after_find pq n d)) 0 ts
  find_by_id-rows k {date} clock h z f =
      let (ts, e, l, r) =
        find_by_id_rows_lem js pq local_time n small d answered m row columns k clock h z f in
      (
        ts,
        e ∙ ap (λ x. answers js pq local_time x after) (respond-extrato js writes client date ts),
        l,
        r,
      )

  -- A statement asked for with the number, below 10^9, of a client whom the query finds, and for whom
  -- the second query returns no row, is answered by 200 with the JSON of the client's balance, the date,
  -- the limit, of each number the low 32 bits, and an empty list; every block is freed. It faults
  -- exactly where that does not fit into the buffer of 2048 bytes. (The clock shows a date; the rows of
  -- the client have three fields; jansson packs and prints as `Writes` says.)
  pub find_by_id-empty :
      {date : List ℕ}
      → current_time_as_iso_str (local_time after.world) ≡ ok date
      → pq.result_status (last_answer pq n (after_find pq n d)) ≡ pgres_tuples_ok
      → pq.ntuples (last_answer pq n (after_find pq n d)) ≡ 0
      → request
        ≡ answers js pq local_time
            (sprintf 2048 (http_200_json (extrato_text writes.text_of_string client date [])))
            after
  find_by_id-empty {date} clock h z =
      find_by_id_empty_lem js pq local_time n small d answered m row columns clock h z
      ∙ ap (λ x. answers js pq local_time x after) (respond-extrato js writes client date [])
