-- ===== src/Account/Balance.antt =====
-- controller/cliente_controller.c: the tests and the balance of the handler, and those of the database.
use crinha.Prelude.{
  ℕ, suc, ◌^◌, ◌<◌, ◌≤◌, ◌≡◌, refl, ap, ◌∙◌, true, false, Bool-cases, inl, inr, Option, List, arith,
}
use crinha.Prelude.Int.{
  ℤ, pos, negsuc, IsInt32, IsInt64, wrap64_in_range, to_bits, neg_ℤ, pos_part, neg_part, ltb_ℤ,
  ◌≤ℤ◌, ◌+ℤ◌, ◌-ℤ◌, +ℤ_parts, ltb_ℤ_iff,
}
use crinha.Clib.Memory.{c_str, IsText}
use crinha.Clib.Memory.Copy.{c_str-text}
use crinha.Clib.Decimal.{decimal, decimal_ℤ, atoi, atol}
use crinha.Clib.Decimal.RoundTrip.{
  AllDigits-IsText, decimal-AllDigits, atol-decimal_ℤ, atoi-decimal_ℤ,
}
use crinha.Entity.{Cliente, Transacao}
use crinha.Db.Libpq.{Libpq}
use crinha.Repository.ClienteRepository.FindOne.{cliente_of}
use crinha.Controller.Validation.{is_credito, is_limite_excedido, update_saldo_cliente}
use crinha.Account.{balance, fits, is_stored}
use crinha.Account.Bank.{Shows}

decimal_ℤ-IsText : (z : ℤ) → IsText (decimal_ℤ z)
unfolding decimal_ℤ
decimal_ℤ-IsText (pos n) = AllDigits-IsText (decimal n) (decimal-AllDigits n)
decimal_ℤ-IsText (negsuc n) =
    (omega arith, AllDigits-IsText (decimal (suc n)) (decimal-AllDigits (suc n)))

-- What the handler computes is the specification's balance, where nothing wraps.
pub update_saldo_cliente-balance :
    (c : Cliente) (t : Transacao)
    → IsInt64 (balance c t)
    → update_saldo_cliente c t ≡ record c { saldo = balance c t }
unfolding update_saldo_cliente balance
update_saldo_cliente-balance c t h = elim (Bool-cases (is_credito t)) [
  | inl y ↦
      rw y
        (ap (λ (z : ℤ). record c { saldo = z }) (wrap64_in_range (c.saldo +ℤ t.valor) (rw y at h)))
  | inr f ↦
      rw f
        (ap (λ (z : ℤ). record c { saldo = z }) (wrap64_in_range (c.saldo -ℤ t.valor) (rw f at h)))
]

-- Over the limit: a debit, whose balance is below minus the limit.
pub over_limit_lem :
    (c : Cliente) (t : Transacao)
    → IsInt64 (balance c t)
    → IsInt64 (neg_ℤ c.limite)
    → is_limite_excedido c t ≡ true
    → (is_credito t ≡ false) × (ltb_ℤ (balance c t) (neg_ℤ c.limite) ≡ true)
unfolding is_limite_excedido balance
over_limit_lem c t h k over = elim (Bool-cases (is_credito t)) [
  | inl y ↦ absurd (cc (rw y at over))
  | inr f ↦ (
    f,
    rw f (
        rw (wrap64_in_range (c.saldo -ℤ t.valor) (rw f at h), wrap64_in_range (neg_ℤ c.limite) k) at
          (rw f at over)),
  )
]

not_less : (a b : ℤ) → b ≤ℤ a → ltb_ℤ a b ≡ false
not_less a b h = ground arith

-- A debit whose balance is below minus the limit is over the limit.
pub over_lem :
    (c : Cliente) (t : Transacao)
    → IsInt64 (balance c t)
    → IsInt64 (neg_ℤ c.limite)
    → is_credito t ≡ false
    → ltb_ℤ (balance c t) (neg_ℤ c.limite) ≡ true
    → is_limite_excedido c t ≡ true
unfolding is_limite_excedido balance
over_lem c t h k f low = rw f (
    rw (wrap64_in_range (c.saldo -ℤ t.valor) (rw f at h), wrap64_in_range (neg_ℤ c.limite) k)
      (rw f at low))

-- A credit is not, nor is a debit that leaves the balance within the limit.
pub not_over_lem :
    (c : Cliente) (t : Transacao)
    → IsInt64 (balance c t)
    → IsInt64 (neg_ℤ c.limite)
    → (is_credito t ≡ false → neg_ℤ c.limite ≤ℤ balance c t)
    → is_limite_excedido c t ≡ false
unfolding is_limite_excedido balance
not_over_lem c t h k within = elim (Bool-cases (is_credito t)) [
  | inl y ↦ rw y refl
  | inr f ↦
      let low : neg_ℤ c.limite ≤ℤ (c.saldo -ℤ t.valor) = rw f at (within f) in
      rw f (
        rw (wrap64_in_range (c.saldo -ℤ t.valor) (rw f at h), wrap64_in_range (neg_ℤ c.limite) k)
          (not_less (c.saldo -ℤ t.valor) (neg_ℤ c.limite) low))
]

pub not_ltb :
    (c : Cliente) (t : Transacao)
    → ltb_ℤ (balance c t) (neg_ℤ c.limite) ≡ false
    → neg_ℤ c.limite ≤ℤ balance c t
not_ltb c t h = le_of (neg_ℤ c.limite) (balance c t) h
  where
    le_of : (a b : ℤ) → ltb_ℤ b a ≡ false → a ≤ℤ b
    le_of a b k = ground arith

fits_lem : (half : ℕ) (z : ℤ) → (pos_part z < half) × (neg_part z ≤ half) → fits half z ≡ true
fits_lem half z h = ground arith

pub within_lem :
    (c : Cliente) (t : Transacao)
    → IsInt64 (balance c t)
    → IsInt64 (neg_ℤ c.limite)
    → neg_ℤ c.limite ≤ℤ c.saldo
    → ltb_ℤ (pos 0) t.valor ≡ true
    → is_limite_excedido c t ≡ false
    → ltb_ℤ (balance c t) (neg_ℤ c.limite) ≡ false
unfolding is_limite_excedido balance
within_lem c t h k funded positive within = elim (Bool-cases (is_credito t)) [
  | inl y ↦ rw y (credit_keeps c.saldo t.valor (neg_ℤ c.limite) funded positive)
  | inr f ↦ rw f (
      rw (wrap64_in_range (c.saldo -ℤ t.valor) (rw f at h), wrap64_in_range (neg_ℤ c.limite) k) at
        (rw f at within))
]
  where
    credit_keeps : (s v l : ℤ) → l ≤ℤ s → ltb_ℤ (pos 0) v ≡ true → ltb_ℤ (s +ℤ v) l ≡ false
    credit_keeps s v l h k =
        not_less (s +ℤ v) l (omega (arith, +ℤ_parts s v, h, ltb_ℤ_iff (pos 0) v k))

-- The command is stored: the amount and the balance fit their columns, and the constraint holds.
pub stored_lem :
    (c : Cliente) (t : Transacao)
    → IsInt32 t.valor
    → IsInt64 (balance c t)
    → ltb_ℤ (balance c t) (neg_ℤ c.limite) ≡ false
    → is_stored c t ≡ true
unfolding is_stored
stored_lem c t v b h = rw (fits_lem (2 ^ 31) t.valor v, fits_lem (2 ^ 63) (balance c t) b, h) refl

-- A client whose row is shown is read as it is.
pub cliente_of-Shows :
    (pq : Libpq) (res : Option pq.Res) (c : Cliente)
    → c.id < 10 ^ 9
    → IsInt64 c.limite
    → IsInt64 c.saldo
    → Shows pq c res
    → cliente_of pq res ≡ c
unfolding decimal_ℤ
cliente_of-Shows pq res c small l s shows =
    let number : to_bits (2 ^ 31) (atoi (c_str (pq.getvalue res 0 0))) ≡ c.id =
      ap (λ x. to_bits (2 ^ 31) (atoi (c_str x))) shows.id
      ∙ ap (λ x. to_bits (2 ^ 31) (atoi x)) (c_str-text _ (decimal_ℤ-IsText (pos c.id)))
      ∙ ap (to_bits (2 ^ 31)) (atoi-decimal_ℤ (pos c.id) (omega arith))
      ∙ ground arith in
    rw (number, read_ℤ _ c.limite l shows.limite, read_ℤ _ c.saldo s shows.saldo) refl
  where
    read_ℤ : (x : List ℕ) (z : ℤ) → IsInt64 z → x ≡ decimal_ℤ z → atol (c_str x) ≡ z
    read_ℤ x z h e =
        ap (λ y. atol (c_str y)) e
        ∙ ap atol (c_str-text _ (decimal_ℤ-IsText z))
        ∙ atol-decimal_ℤ z h
