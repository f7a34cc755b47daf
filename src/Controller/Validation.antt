-- ===== src/Controller/Validation.antt =====
-- controller/cliente_controller.c: the tests of a request and the balance.
pub mod Limit
pub mod Identifier
use crinha.Prelude.{
  ℕ, zero, suc, ◌<◌, ◌==◌, ◌&&◌, ◌||◌, ltb, leb, if◌then◌else◌, Bool, true, false, Option, none,
  some, List, [], ◌∷◌, get_or, Exec, ok, fault, null_pointer,
}
use crinha.Prelude.Int.{ℤ, pos, ltb_ℤ, neg_ℤ, ◌+ℤ◌, ◌-ℤ◌, wrap64}
use crinha.Clib.Memory.{strlen, isdigit}
use crinha.Util.StringUtil.{string_util_utf8_strlen}
use crinha.Entity.{Cliente, Transacao, transacao_descricao_len}

unfoldable pub digits_only : List ℕ → Bool
digits_only [] = true
digits_only (zero ∷ s) = true
digits_only (suc c ∷ s) = elim (isdigit (suc c)) [ true ↦ digits_only s | false ↦ false ]

unfoldable pub is_id_cliente_valido : List ℕ → Bool
unfolding digits_only
is_id_cliente_valido id = ltb 0 (strlen id) && ltb (strlen id) 10 && digits_only id

unfoldable pub is_descricao_transacao_valida : Option (List ℕ) → Bool
unfolding string_util_utf8_strlen
is_descricao_transacao_valida none = false
is_descricao_transacao_valida (some descricao) =
    let len = string_util_utf8_strlen descricao in leb 1 len && leb len transacao_descricao_len

-- `strlen` reads through its argument, which is NULL if the field is no string.
unfoldable pub is_tipo_transacao_valido : Option (List ℕ) → Exec Bool
is_tipo_transacao_valido none = fault null_pointer
is_tipo_transacao_valido (some tipo) =
    ok ((strlen tipo == 1) && ((get_or tipo 0 0 == b'c') || (get_or tipo 0 0 == b'd')))

unfoldable pub is_valor_transacao_valido : ℤ → Bool
is_valor_transacao_valido valor = ltb_ℤ (pos 0) valor

-- The first byte of `tipo`.
abbrev pub is_credito : Transacao → Bool
is_credito t = get_or t.tipo 0 0 == b'c'

-- Subtraction and negation on int64_t; what C leaves undefined wraps here, as it does on the
-- target.
unfoldable pub is_limite_excedido : Cliente → Transacao → Bool
unfolding wrap64 ◌-ℤ◌ neg_ℤ
is_limite_excedido c t =
    if is_credito t then false else ltb_ℤ (wrap64 (c.saldo -ℤ t.valor)) (wrap64 (neg_ℤ c.limite))

unfoldable pub update_saldo_cliente : Cliente → Transacao → Cliente
unfolding wrap64 ◌+ℤ◌ ◌-ℤ◌
update_saldo_cliente c t =
    if is_credito t
    then record c { saldo = wrap64 (c.saldo +ℤ t.valor) }
    else record c { saldo = wrap64 (c.saldo -ℤ t.valor) }
