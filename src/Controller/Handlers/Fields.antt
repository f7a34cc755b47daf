-- ===== src/Controller/Handlers/Fields.antt =====
-- controller/cliente_controller.c: the fields of a new transaction.
use crinha.Prelude.{
  ℕ, ◌≡◌, refl, ap, ◌∙◌, true, Option, none, some, List, arith, ok, fault, null_pointer, take,
}
use crinha.Prelude.Int.{ℤ}
use crinha.Clib.Memory.{c_str}
use crinha.Util.StringUtil.Copy.{strzcpy_front}
use crinha.Entity.{Transacao, fresh_transacao}
use crinha.Controller.Jansson.{Jansson}
use crinha.Controller.Validation.{
  is_descricao_transacao_valida, is_tipo_transacao_valido, is_valor_transacao_valido,
}
use crinha.Controller.Handlers.{campos_validos, nova_transacao, to_u32}

module _ (js : Jansson) where
  open js use {Json, string_value, is_integer, integer_value}

  -- A body whose `descricao` is a valid text and whose `tipo` is missing or no string is not refused:
  -- the test of `tipo` reads through NULL.
  pub campos_validos-null :
      (json_valor json_tipo json_descricao : Option Json)
      → is_descricao_transacao_valida (string_value json_descricao) ≡ true
      → string_value json_tipo ≡ none
      → campos_validos js json_valor json_tipo json_descricao ≡ fault null_pointer
  unfolding campos_validos is_tipo_transacao_valido
  campos_validos-null json_valor json_tipo json_descricao d t =
      rw (d, campos_validos) (rw (t, is_tipo_transacao_valido) refl)

  -- What the condition of the handler checks, with a client's type a single `c` or `d`.
  pub record AreValid (json_valor json_tipo json_descricao : Option Json) : Type 0 where
    pub tipo : List ℕ
    pub descricao : List ℕ
    pub tipo_is : string_value json_tipo ≡ some tipo
    pub descricao_is : string_value json_descricao ≡ some descricao
    pub tipo_ok : is_tipo_transacao_valido (some tipo) ≡ ok true
    pub descricao_ok : is_descricao_transacao_valida (some descricao) ≡ true
    pub integer : is_integer json_valor ≡ true
    pub positive : is_valor_transacao_valido (integer_value json_valor) ≡ true

  -- Fields that are valid pass the condition.
  pub AreValid-campos_validos :
      (json_valor json_tipo json_descricao : Option Json)
      → AreValid json_valor json_tipo json_descricao
      → campos_validos js json_valor json_tipo json_descricao ≡ ok true
  unfolding campos_validos
  AreValid-campos_validos json_valor json_tipo json_descricao v =
      let d : is_descricao_transacao_valida (string_value json_descricao) ≡ true =
        ap is_descricao_transacao_valida v.descricao_is ∙ v.descricao_ok in
      let t : is_tipo_transacao_valido (string_value json_tipo) ≡ ok true =
        ap is_tipo_transacao_valido v.tipo_is ∙ v.tipo_ok in
      rw (d, campos_validos) (rw (t, v.integer, v.positive) refl)

  -- The transaction takes the amount and the client's number as they are, the first byte of the type,
  -- and the first 20 bytes of the description.
  pub nova_transacao_lem :
      (id_cliente : ℤ) (json_valor json_tipo json_descricao : Option Json) {tipo descricao : List ℕ}
      → string_value json_tipo ≡ some tipo
      → string_value json_descricao ≡ some descricao
      → (t : Transacao) × (nova_transacao js id_cliente json_valor json_tipo json_descricao ≡ ok t)
        × (t.id_cliente ≡ to_u32 id_cliente)
        × (t.valor ≡ integer_value json_valor)
        × (c_str t.tipo ≡ take 1 (c_str tipo))
        × (c_str t.descricao ≡ take 20 (c_str descricao))
  unfolding nova_transacao
  nova_transacao_lem id_cliente json_valor json_tipo json_descricao {tipo} {descricao} a b =
      let (x, e, f) = strzcpy_front fresh_transacao.tipo tipo 1 (omega arith) in
      let (y, e', f') = strzcpy_front fresh_transacao.descricao descricao 20 (omega arith) in
      (
        record fresh_transacao {
          id_cliente = to_u32 id_cliente;
          valor = integer_value json_valor;
          tipo = x;
          descricao = y;
        },
        rw (a, b, nova_transacao) (rw (e, e') refl),
        refl,
        refl,
        f,
        f',
      )
