-- ===== src/Tests/StatementRuns.antt =====
-- The statement of a client, with its two queries.
use crinha.Prelude.{ℕ, ◌≡◌, refl, some, List, [], ◌∷◌, length, codes, arith, ok}
use crinha.Prelude.Int.{pos, negsuc, wrap32, neg_ℤ}
use crinha.Clib.Memory.{sprintf}
use crinha.Clib.Decimal.{decimal, decimal_ℤ, digits, atoi, atol, signed_value, digits_value}
use crinha.Entity.{Cliente, Transacao}
use crinha.Db.Libpq.{Libpq}
use crinha.Db.State.{Db}
use crinha.Router.{http_not_found}
use crinha.Repository.Sql.{find_one_query, find_last_10_query, print_d}
use crinha.Repository.Rows.Read.{AreRows}
use crinha.Controller.Response.{current_time_as_iso_str, six_digits}
use crinha.Controller.Url.Param.{Suffix, url_of}
use crinha.Controller.Handlers.{cliente_controller_find_by_id}
use crinha.Controller.Handlers.Statement.{answers, find_by_id-unknown}
use crinha.Controller.Response.{http_200_json}
use crinha.Account.Extrato.{extrato_text, transacoes_texts, transacao_text}
use crinha.Account.Extrato.Answers.{find_by_id-rows, find_by_id-empty}
use crinha.Tests.DbRuns.{debit}
use crinha.Tests.Writer.{writer, writer-Writes, string_text}
use crinha.Tests.Toys.{toy_jansson, toy_libpq, toy_db, two_answers, one_client, no_client, two_rows}

abbrev february : List (List ℕ) → List ℕ × ℕ
february w = (codes "2024-02-01T00:00:00", 7)

abbrev pub date : List ℕ
date = codes "2024-02-01T00:00:00.000007Z"

pub clock : current_time_as_iso_str (codes "2024-02-01T00:00:00", 7) ≡ ok date
unfolding current_time_as_iso_str six_digits decimal digits sprintf
clock = refl

abbrev cliente : Cliente
cliente = record { id = 7; limite = pos 1000; saldo = negsuc 499 }

abbrev bank : Libpq
bank = two_answers one_client two_rows

abbrev bank_db : Db bank
bank_db = record { pool = some tt; world = []; live = 0 }

find_by_id-unknown_example :
    cliente_controller_find_by_id toy_jansson
      (toy_libpq no_client)
      february
      (url_of (decimal 7) Suffix.extrato)
      (toy_db no_client)
    ≡ ok (http_not_found, toy_db no_client)
find_by_id-unknown_example =
    find_by_id-unknown toy_jansson (toy_libpq no_client) february 7 (omega arith) (toy_db no_client)
      refl refl

find_by_id-rows_example :
    (ts : List Transacao) × (cliente_controller_find_by_id writer bank february
        (url_of (decimal 7) Suffix.extrato)
        bank_db
      ≡ answers writer bank february
          (sprintf 2048 (http_200_json (extrato_text string_text cliente date ts)))
          bank_db)
    × (length ts ≡ 2)
    × AreRows bank (some two_rows) 0 ts
unfolding atoi atol signed_value digits_value wrap32 neg_ℤ find_one_query find_last_10_query print_d
    decimal_ℤ decimal digits
find_by_id-rows_example =
    find_by_id-rows writer writer-Writes bank february 7 (omega arith) bank_db refl 0 refl refl 1
      clock refl refl refl

abbrev new_bank : Libpq
new_bank = two_answers one_client no_client

abbrev new_bank_db : Db new_bank
new_bank_db = record { pool = some tt; world = []; live = 0 }

find_by_id-empty_example :
    cliente_controller_find_by_id writer new_bank february
      (url_of (decimal 7) Suffix.extrato)
      new_bank_db
    ≡ answers writer new_bank february
        (sprintf 2048 (http_200_json (extrato_text string_text cliente date [])))
        new_bank_db
unfolding atoi atol signed_value digits_value wrap32 neg_ℤ find_one_query find_last_10_query print_d
    decimal_ℤ decimal digits
find_by_id-empty_example =
    find_by_id-empty writer writer-Writes new_bank february 7 (omega arith) new_bank_db refl 0 refl
      refl clock refl refl

-- The text of a statement with one transaction.
statement_text :
    extrato_text string_text cliente date (debit ∷ [])
    ≡ codes
        "{\"saldo\":{\"total\":-500,\"data_extrato\":\"2024-02-01T00:00:00.000007Z\",\"limite\":1000},\"ultimas_transacoes\":[{\"valor\":100,\"tipo\":\"d\",\"descricao\":\"descricao\",\"realizada_em\":\"\"}]}"
unfolding extrato_text transacoes_texts transacao_text decimal_ℤ decimal digits wrap32
statement_text = refl
