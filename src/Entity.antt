-- ===== src/Entity.antt =====
-- entity/cliente.h and entity/transacao.h. The character arrays are lists of all their bytes.
use crinha.Prelude.{ℕ, ◌*◌, ◌+◌, List, Option, replicate}
use crinha.Prelude.Int.{ℤ}

abbrev pub transacao_tipo_len : ℕ
transacao_tipo_len = 1

abbrev pub transacao_descricao_len : ℕ
transacao_descricao_len = 10

abbrev pub transacao_realizada_em_len : ℕ
transacao_realizada_em_len = 40

abbrev pub utf8_transacao_descricao_len : ℕ
utf8_transacao_descricao_len = transacao_descricao_len * 2

-- `id` is a uint32_t; `limite` and `saldo` are int64_t.
pub record Cliente : Type 0 where
  pub id : ℕ
  pub limite : ℤ
  pub saldo : ℤ

-- The pointer may be NULL.
pub record ClienteList : Type 0 where
  pub size : ℕ
  pub values : Option (List Cliente)

pub record Transacao : Type 0 where
  pub id : ℕ
  pub id_cliente : ℕ
  pub valor : ℤ
  pub tipo : List ℕ
  pub descricao : List ℕ
  pub realizada_em : List ℕ

-- A block that `malloc` has returned. Its bytes are unspecified; no function reads a field that it
-- has not written.
abbrev pub fresh_cliente : Cliente
fresh_cliente = record { id = 0; limite = ℤ.pos 0; saldo = ℤ.pos 0 }

abbrev pub fresh_transacao : Transacao
fresh_transacao = record {
  id = 0;
  id_cliente = 0;
  valor = ℤ.pos 0;
  tipo = replicate (transacao_tipo_len + 1) 0;
  descricao = replicate (utf8_transacao_descricao_len + 1) 0;
  realizada_em = replicate (transacao_realizada_em_len + 1) 0;
}
