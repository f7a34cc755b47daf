-- ===== src/Controller/Validation/Limit.antt =====
-- controller/cliente_controller.c: `is_limite_excedido` and `update_saldo_cliente`.
use crinha.Prelude.{◌-◌, ◌^◌, ◌<◌, ◌≡◌, true, false, arith, ◌↔◌}
use crinha.Prelude.Int.{
  ℤ, pos, neg_ℤ, ◌-ℤ◌, ◌≤ℤ◌, ltb_ℤ, pos_part, neg_part, wrap64, wrap64_in_range, IsInt64,
}
use crinha.Entity.{Cliente, Transacao}
use crinha.Controller.Validation.{is_credito, is_limite_excedido, update_saldo_cliente}

not_ltb_ℤ : (a b : ℤ) → (ltb_ℤ a b ≡ false) ↔ (b ≤ℤ a)
not_ltb_ℤ a b = (λ h. ground arith, λ h. ground arith)

-- A debit is accepted exactly if the balance that it leaves is not below minus the limit, where the
-- new balance and minus the limit are values of int64_t.
pub is_limite_excedido_iff :
    (c : Cliente) (t : Transacao)
    → is_credito t ≡ false
    → IsInt64 (c.saldo -ℤ t.valor)
    → IsInt64 (neg_ℤ c.limite)
    → (is_limite_excedido c t ≡ false) ↔ (neg_ℤ c.limite ≤ℤ (update_saldo_cliente c t).saldo)
unfolding is_limite_excedido update_saldo_cliente
is_limite_excedido_iff c t debit fits fits' =
    rw (debit, wrap64_in_range (c.saldo -ℤ t.valor) fits, wrap64_in_range (neg_ℤ c.limite) fits')
      (not_ltb_ℤ (c.saldo -ℤ t.valor) (neg_ℤ c.limite))

-- Below the least value, the wrapped value is 2^64 more.
wraps_to :
    (a : ℤ) → 2 ^ 63 < neg_part a → neg_part a < 2 ^ 64 → wrap64 a ≡ pos (2 ^ 64 - neg_part a)
unfolding wrap64
wraps_to a low high = ground arith

least : (a b : ℤ) → IsInt64 a → IsInt64 b → neg_part (a -ℤ b) < 2 ^ 64
unfolding ◌-ℤ◌
least a b h k = ground arith

negated : (a : ℤ) → IsInt64 a → pos 0 ≤ℤ a → IsInt64 (neg_ℤ a) × (pos_part (neg_ℤ a) ≡ 0)
unfolding neg_ℤ
negated a h k = (ground arith, ground arith)

-- A debit that takes the balance below the least value of int64_t is accepted, and leaves a positive
-- balance (the subtraction wraps; client and transaction are values of int64_t, the limit is not
-- negative).
pub is_limite_excedido-wraps :
    (c : Cliente) (t : Transacao)
    → is_credito t ≡ false
    → IsInt64 c.saldo
    → IsInt64 t.valor
    → IsInt64 c.limite
    → pos 0 ≤ℤ c.limite
    → 2 ^ 63 < neg_part (c.saldo -ℤ t.valor)
    → (is_limite_excedido c t ≡ false) × (ltb_ℤ (pos 0) (update_saldo_cliente c t).saldo ≡ true)
unfolding is_limite_excedido update_saldo_cliente
is_limite_excedido-wraps c t debit s v l nonneg low =
    let e = wraps_to (c.saldo -ℤ t.valor) low (least c.saldo t.valor s v) in
    let (m, none_left) = negated c.limite l nonneg in
    rw (debit, e, wrap64_in_range (neg_ℤ c.limite) m) (ground (arith, none_left), ground arith)
