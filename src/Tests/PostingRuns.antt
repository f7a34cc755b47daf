-- ===== src/Tests/PostingRuns.antt =====
-- Transactions posted to a database whose every query has one answer.
use crinha.Prelude.{ℕ, ◌≡◌, refl, some, List, [], ◌∷◌, codes, ok, arith}
use crinha.Prelude.Int.{pos, negsuc, neg_ℤ, ◌-ℤ◌, wrap32}
use crinha.Clib.Decimal.{decimal, atoi, atol, signed_value, digits_value}
use crinha.Router.{http_unprocessable_entity}
use crinha.Db.Drain.{DrainsTo}
use crinha.Repository.Sql.{insert_async_query}
use crinha.Controller.Url.Param.{transacoes, url_of}
use crinha.Controller.Response.{http_200_json}
use crinha.Controller.Handlers.{cliente_controller_save_transacao}
use crinha.Account.{balance, saldo_text}
use crinha.Account.Posting.{save-over_limit, save-accepted}
use crinha.Tests.Toys.{toy_libpq, toy_libpq-Drains, toy_db, one_client, poor_client}
use crinha.Tests.DbRuns.{debit}
use crinha.Tests.AccountRuns.{bank_jansson, bank_jansson-Prints, fields-AreValid, made}

-- A debit of 100 from a balance of -950, with a limit of 1000.
save-over_limit_example :
    cliente_controller_save_transacao bank_jansson
      (toy_libpq poor_client)
      (url_of (decimal 7) transacoes)
      (some (codes "1"))
      (toy_db poor_client)
    ≡ ok (http_unprocessable_entity, toy_db poor_client)
unfolding balance neg_ℤ ◌-ℤ◌ atoi atol signed_value digits_value wrap32
save-over_limit_example =
    save-over_limit bank_jansson (toy_libpq poor_client) 7 (omega arith) (codes "1")
      (toy_db poor_client) fields-AreValid debit made refl 0 refl refl refl
      (ground arith, ground arith) (ground arith, ground arith) refl

-- The same from a balance of -500.
save-accepted_example :
    (w : List (List ℕ)) × DrainsTo (toy_libpq one_client) (some tt) [] w
    × (cliente_controller_save_transacao bank_jansson
          (toy_libpq one_client)
          (url_of (decimal 7) transacoes)
          (some (codes "1"))
          (toy_db one_client)
        ≡ ok (
          http_200_json (saldo_text (record { id = 7; limite = pos 1000; saldo = negsuc 599 })),
          record (toy_db one_client) { world = insert_async_query debit ∷ w },
        ))
unfolding balance neg_ℤ ◌-ℤ◌ atoi atol signed_value digits_value wrap32
save-accepted_example =
    save-accepted bank_jansson (toy_libpq one_client) 7 (omega arith) (codes "1")
      (toy_db one_client) fields-AreValid debit made refl 0 refl refl (toy_libpq-Drains one_client)
      bank_jansson-Prints (ground arith, ground arith) (ground arith, ground arith)
      (λ e. ground arith)
