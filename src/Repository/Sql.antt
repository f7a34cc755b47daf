-- ===== src/Repository/Sql.antt =====
-- The SQL texts of repository/. `%d` prints an unsigned 32-bit number as an int.
pub mod Literal
use crinha.Prelude.{ℕ, ◌==◌, if◌then◌else◌, List, [], ◌∷◌, codes, joined, get_or}
use crinha.Prelude.Int.{pos, wrap32}
use crinha.Clib.Decimal.{decimal_ℤ}
use crinha.Clib.Memory.{c_str}
use crinha.Entity.{Transacao}

unfoldable pub print_d : ℕ → List ℕ
unfolding decimal_ℤ wrap32
print_d n = decimal_ℤ (wrap32 (pos n))

unfoldable pub find_one_query : ℕ → List ℕ
unfolding print_d
find_one_query id =
    joined (codes "select id, limite, saldo from cliente where id = " ∷ print_d id ∷ [])

quote : List ℕ
quote = b'"' ∷ []

unfoldable pub find_last_10_query : ℕ → List ℕ
unfolding print_d quote
find_last_10_query id_cliente = joined (
    codes "select id, id_cliente, valor, tipo, descricao, to_char(realizada_em, 'YYYY-MM-DD"
    ∷ quote
    ∷ codes "T"
    ∷ quote
    ∷ codes "HH24:MI:SS.US"
    ∷ quote
    ∷ codes "Z"
    ∷ quote
    ∷ codes "') from transacao where id_cliente = "
    ∷ print_d id_cliente
    ∷ codes " order by realizada_em desc limit 10"
    ∷ [])

-- `operacao`: the sign of the change of the balance.
unfoldable pub operacao : Transacao → ℕ
operacao t = if get_or t.tipo 0 0 == b'c' then b'+' else b'-'

unfoldable pub update_command : Transacao → List ℕ
unfolding operacao print_d decimal_ℤ
update_command t = joined (
    codes "update cliente set saldo = saldo "
    ∷ (operacao t ∷ [])
    ∷ codes " "
    ∷ decimal_ℤ t.valor
    ∷ codes " where id = "
    ∷ print_d t.id_cliente
    ∷ codes ";"
    ∷ [])

-- The strings stand between quotes as they are.
unfoldable pub insert_command : Transacao → List ℕ
unfolding print_d decimal_ℤ
insert_command t = joined (
    codes "insert into transacao(id_cliente, valor, tipo, descricao) values("
    ∷ print_d t.id_cliente
    ∷ codes ", "
    ∷ decimal_ℤ t.valor
    ∷ codes ", '"
    ∷ c_str t.tipo
    ∷ codes "', '"
    ∷ c_str t.descricao
    ∷ codes "');"
    ∷ [])

unfoldable pub insert_async_query : Transacao → List ℕ
unfolding update_command insert_command
insert_async_query t = joined (update_command t ∷ insert_command t ∷ [])

unfoldable pub insert_query : Transacao → List ℕ
unfolding update_command insert_command print_d
insert_query t = joined (
    update_command t
    ∷ insert_command t
    ∷ codes "select * from cliente where id = "
    ∷ print_d t.id_cliente
    ∷ codes ";"
    ∷ [])
