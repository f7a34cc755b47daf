-- ===== src/Tests/AccountRuns.antt =====
-- Transactions posted to a database that runs the commands.
use crinha.Prelude.{
  true, ℕ, ◌≤◌, Bool-cases, inl, inr, ◌≡◌, refl, ◌==◌, if◌then◌else◌, Option, none, some, List, [],
  ◌∷◌, codes, length, ok, arith, subst,
}
use crinha.Prelude.Int.{pos, negsuc, neg_ℤ, ◌≤ℤ◌, ◌-ℤ◌, IsInt64, wrap32, pos_part, neg_part}
use crinha.Clib.Memory.{write_at, overwrite, sprintf}
use crinha.Clib.Decimal.{decimal, atoi, atol, digits, signed_value, digits_value}
use crinha.Util.StringUtil.{strzcpy, string_util_utf8_strlen, is_continuation}
use crinha.Entity.{Cliente, Transacao}
use crinha.Db.State.{Db}
use crinha.Controller.Jansson.{Jansson, PackArg, int}
use crinha.Controller.Validation.{
  is_tipo_transacao_valido, is_descricao_transacao_valida, is_valor_transacao_valido,
}
use crinha.Controller.Response.{respond, build_json_saldo, http_200_json}
use crinha.Controller.Url.Param.{transacoes, url_of, Suffix}
use crinha.Controller.Handlers.{
  nova_transacao, cliente_controller_save_transacao, cliente_controller_find_by_id,
}
use crinha.Controller.Handlers.Fields.{AreValid}
use crinha.Controller.Handlers.Requests.{valor_of, tipo_of, descricao_of}
use crinha.Account.{Table, balance, SaveStep, saldo_json, saldo_text}
use crinha.Account.Bank.{IsPostable}
use crinha.Account.Reply.{Prints, respond-saldo}
use crinha.Repository.Sql.{find_last_10_query, print_d}
use crinha.Controller.Handlers.Statement.{answers}
use crinha.Account.Extrato.{extrato_text}
use crinha.Tests.Writer.{writer, writer-Writes, string_text}
use crinha.Repository.Rows.Read.{AreRows}
use crinha.Repository.ClienteRepository.FindOne.{after_find}
use crinha.Repository.TransacaoRepository.FindLast.{last_answer}
use crinha.Tests.StatementRuns.{date, clock}
use crinha.Account.Statement.{after, Lists, find_by_id-Bank}
use crinha.Account.Saving.{save-SaveStep}
use crinha.Account.History.{Posting, Funded, Bounded, History, save_all, save_all-History}
use crinha.Tests.Toys.{Toy, toy_text, toy_packed, toy_number, toy_jansson}
use crinha.Tests.DbRuns.{debit}
use crinha.Tests.BankDb.{
  bank_libpq, bank_libpq-Drains, bank_libpq-Bank, bank_rows, checked, is_row, run_query,
}
use crinha.Tests.BankSql.{asked}

-- A jansson that prints an object of two integers.
pub pack_toy : List (List ℕ × PackArg Toy) → Option Toy
unfolding saldo_json
pack_toy ((k, int a) ∷ (k', int b) ∷ []) = some (toy_text (saldo_json a b))
pack_toy args = some toy_packed

pub dumps_text : Option Toy → Option (List ℕ)
dumps_text (some (toy_text s)) = some s
dumps_text _ = none

abbrev pub bank_jansson : Jansson
bank_jansson = record toy_jansson { pack = pack_toy; dumps = dumps_text }

pub bank_jansson-Prints : Prints bank_jansson
unfolding pack_toy dumps_text
bank_jansson-Prints = record { compact = λ a b h k. refl }

-- One client with a limit of 1000 and a balance of -500.
abbrev pub client : Cliente
client = record { id = 7; limite = pos 1000; saldo = negsuc 499 }

abbrev pub accounts : Table
accounts k = if k == 7 then some client else none

abbrev pub bank : Db bank_libpq
bank = record { pool = some tt; world = accounts; live = 0 }

respond-saldo_example :
    respond 256 (bank_jansson.dumps (build_json_saldo bank_jansson client))
    ≡ ok (http_200_json (saldo_text client))
respond-saldo_example = respond-saldo bank_jansson bank_jansson-Prints client

pub fields-AreValid :
    AreValid bank_jansson
      (valor_of bank_jansson bank_libpq (codes "1"))
      (tipo_of bank_jansson bank_libpq (codes "1"))
      (descricao_of bank_jansson bank_libpq (codes "1"))
unfolding is_tipo_transacao_valido is_descricao_transacao_valida string_util_utf8_strlen
    is_continuation is_valor_transacao_valido
fields-AreValid = record {
  tipo = codes "d";
  descricao = codes "descricao";
  tipo_is = refl;
  descricao_is = refl;
  tipo_ok = refl;
  descricao_ok = refl;
  integer = refl;
  positive = refl;
}

pub made :
    nova_transacao bank_jansson
      (atoi (decimal 7))
      (some (toy_number (pos 100)))
      (some (toy_text (codes "d")))
      (some (toy_text (codes "descricao")))
    ≡ ok debit
unfolding nova_transacao strzcpy write_at overwrite atoi decimal digits atol signed_value
    digits_value wrap32
made = refl

pub debit-IsPostable : IsPostable debit
debit-IsPostable = record {
  number = omega arith;
  valor = omega arith;
  tipo = refl;
  tipo_plain = ground arith;
  descricao = omega arith;
  descricao_plain = ground arith;
}

some_injective : {a b : Cliente} → some a ≡ some b → a ≡ b
some_injective h = cc

nothing : {a : Cliente} → none ≡ some a → ⊥
nothing h = cc

-- What the account starts from holds of every row.
abbrev IsSound : Cliente → Type 0
IsSound c = (neg_ℤ c.limite ≤ℤ c.saldo) × (pos_part c.saldo ≤ 1000) × (neg_part c.saldo ≤ 1000)

rows_lem : (n : ℕ) (c : Cliente) → bank_rows accounts n ≡ some c → IsSound c
unfolding bank_rows checked is_row neg_ℤ
rows_lem n c e = elim (Bool-cases (n == 7)) [
  | inr f ↦ absurd (nothing (rw f at e))
  | inl y ↦ elim (Bool-cases (7 == n)) [
    | inr f ↦ absurd (nothing (rw (y, f) at e))
    | inl z ↦
        subst IsSound (some_injective (rw (y, z) at e)) (omega arith, omega arith, omega arith)
  ]
]

pub sound :
    (c : Cliente)
    → bank_rows accounts 7 ≡ some c
    → (neg_ℤ c.limite ≤ℤ c.saldo) × IsInt64 (balance c debit)
unfolding balance ◌-ℤ◌
sound c e = let (f, a, b) = rows_lem 7 c e in (f, (ground arith, ground arith))

save-SaveStep_example :
    (reply : List ℕ) × (d' : Db bank_libpq) × (cliente_controller_save_transacao bank_jansson
        bank_libpq
        (url_of (decimal 7) transacoes)
        (some (codes "1"))
        bank
      ≡ ok (reply, d'))
    × (d'.pool ≡ some tt)
    × (d'.live ≡ 0)
    × SaveStep 7 debit (bank_rows accounts) (bank_rows d'.world) true reply
save-SaveStep_example =
    save-SaveStep bank_jansson bank_libpq bank_libpq-Drains bank_jansson-Prints bank bank_libpq-Bank
      7 (omega arith) (codes "1") fields-AreValid debit made debit-IsPostable sound

-- Two debits of 100.
abbrev posting : Posting bank_jansson bank_libpq
posting = record {
  n = 7;
  small = omega arith;
  text = codes "1";
  valid = fields-AreValid;
  t = debit;
  made = made;
  postable = debit-IsPostable;
}

accounts-Funded : Funded (bank_rows accounts)
accounts-Funded n c e = (rows_lem n c e).0

accounts-Bounded : Bounded 1000 (bank_rows accounts)
accounts-Bounded n c e = let (_, a, b) = rows_lem n c e in (a, b)

save_all-History_example :
    (replies : List (List ℕ)) × (w : Table) × (save_all bank_jansson bank_libpq
        (posting ∷ posting ∷ [])
        bank
      ≡ ok (replies, record bank { world = w }))
    × History bank_jansson bank_libpq bank_libpq-Drains bank_jansson-Prints
        (some tt)
        bank_libpq-Bank
        0
        accounts
        (posting ∷ posting ∷ [])
        replies
        w
    × Funded (bank_rows w)
save_all-History_example =
    save_all-History bank_jansson bank_libpq bank_libpq-Drains bank_jansson-Prints (some tt)
      bank_libpq-Bank 0 (posting ∷ posting ∷ []) accounts 1000 (omega arith) accounts-Funded
      accounts-Bounded

-- The query for the transactions finds none.
abbrev february : Table → List ℕ × ℕ
february w = (codes "2024-02-01T00:00:00", 7)

none_listed : Lists writer writer-Writes bank_libpq february bank bank_libpq-Bank 7 (omega arith)
unfolding run_query bank_rows checked is_row asked find_last_10_query print_d atoi atol signed_value
    digits_value wrap32
none_listed = (refl, inl refl)

client_row : bank_rows accounts 7 ≡ some client
unfolding bank_rows checked is_row neg_ℤ
client_row = refl

abbrev after_statement : Db bank_libpq
after_statement =
    after writer writer-Writes bank_libpq february bank bank_libpq-Bank 7 (omega arith)

find_by_id-Bank_example :
    ((ts : List Transacao) × (cliente_controller_find_by_id writer bank_libpq february
          (url_of (decimal 7) Suffix.extrato)
          bank
        ≡ answers writer bank_libpq february
            (sprintf 2048 (http_200_json (extrato_text string_text client date ts)))
            after_statement)
      × (length ts ≡ bank_libpq.ntuples (last_answer bank_libpq 7 (after_find bank_libpq 7 bank)))
      × AreRows bank_libpq (last_answer bank_libpq 7 (after_find bank_libpq 7 bank)) 0 ts)
    × (after_statement.live ≡ 0)
    × ((m : ℕ) → bank_rows after_statement.world m ≡ bank_rows accounts m)
find_by_id-Bank_example =
    find_by_id-Bank writer writer-Writes bank_libpq february bank bank_libpq-Bank 7 (omega arith)
      client client_row clock none_listed
