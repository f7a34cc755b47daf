-- ===== src/Repository/Rows.antt =====
-- repository/: the assignments that fill a struct from a row of a result set.
pub mod Read
use crinha.Prelude.{ℕ, zero, suc, ◌+◌, List, [], ◌∷◌, Exec, ok, ◌>>=◌}
use crinha.Entity.{
  Cliente, Transacao, fresh_transacao, transacao_tipo_len, utf8_transacao_descricao_len,
  transacao_realizada_em_len,
}
use crinha.Util.StringUtil.{strzcpy}
use crinha.Db.ResultSet.{DbResultSet}
use crinha.Repository.Fields.{field, field_u32, field_i64}

-- The first row as a client.
unfoldable pub read_cliente : DbResultSet → Exec Cliente
read_cliente rs = do
  id ← field_u32 rs 0 0
  limite ← field_i64 rs 0 1
  saldo ← field_i64 rs 0 2
  ok (record { id = id; limite = limite; saldo = saldo })

-- The body of the loop: row `i` into the `i`-th element of the new array.
unfoldable pub read_transacao : DbResultSet → ℕ → Exec Transacao
read_transacao rs i = do
  id ← field_u32 rs i 0
  id_cliente ← field_u32 rs i 1
  valor ← field_i64 rs i 2
  tipo ← strzcpy fresh_transacao.tipo 0 (← field rs i 3) transacao_tipo_len
  descricao ← strzcpy fresh_transacao.descricao 0 (← field rs i 4) utf8_transacao_descricao_len
  realizada_em ← strzcpy fresh_transacao.realizada_em 0 (← field rs i 5) transacao_realizada_em_len
  ok (record {
    id = id;
    id_cliente = id_cliente;
    valor = valor;
    tipo = tipo;
    descricao = descricao;
    realizada_em = realizada_em;
  })

-- `for (int i = …; i < rows_count; i++)`, with `n` rounds left.
unfoldable pub read_transacoes : DbResultSet → ℕ → ℕ → Exec (List Transacao)
read_transacoes rs i zero = ok []
read_transacoes rs i (suc n) = do
  t ← read_transacao rs i
  ts ← read_transacoes rs (i + 1) n
  ok (t ∷ ts)
