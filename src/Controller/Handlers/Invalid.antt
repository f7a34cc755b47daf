-- ===== src/Controller/Handlers/Invalid.antt =====
-- controller/cliente_controller.c: the fields that are refused.
use crinha.Prelude.{
  ℕ, zero, suc, ◌<◌, ◌≡◌, ◌≢◌, refl, ap, ◌∙◌, ◌==◌, ◌&&◌, ◌||◌, ==_iff, leb, Bool, true, false,
  Bool-cases, inl, inr, ◌⊎◌, Option, none, some, List, [], ◌∷◌, codes, length, get_or, arith, ok,
}
use crinha.Prelude.Int.{ℤ, pos, ◌≤ℤ◌}
use crinha.Clib.Memory.{c_str, strlen}
use crinha.Util.StringUtil.{string_util_utf8_strlen}
use crinha.Controller.Jansson.{Jansson}
use crinha.Controller.Validation.{
  is_descricao_transacao_valida, is_tipo_transacao_valido, is_valor_transacao_valido,
}
use crinha.Controller.Handlers.{campos_validos}

both_true : (a b : Bool) → (a && b) ≡ true → (a ≡ true) × (b ≡ true)
both_true a b h = ground arith

one_of : (a b c : Bool) → (a && (b || c)) ≡ true → ((a && b) ≡ true) ⊎ ((a && c) ≡ true)
one_of true true c h = inl refl
one_of true false c h = inr h
one_of false b c h = cc

no_length : (s : List ℕ) → length s ≡ 0 → s ≡ []
no_length [] e = refl
no_length (x ∷ s) e = absurd (omega arith)

-- What a string of one byte is.
c_str-single :
    (s : List ℕ) (c : ℕ) → ((strlen s == 1) && (get_or s 0 0 == c)) ≡ true → c_str s ≡ c ∷ []
c_str-single [] c h = cc
c_str-single (zero ∷ s) c h = cc
c_str-single (suc b ∷ s) c h =
    let (one, same) = both_true (strlen (suc b ∷ s) == 1) (suc b == c) h in
    let none_left : length (c_str s) ≡ 0 = omega (arith, (==_iff (strlen (suc b ∷ s)) 1).0 one) in
    ap (λ x. x ∷ c_str s) ((==_iff (suc b) c).0 same)
    ∙ ap (λ r. c ∷ r) (no_length (c_str s) none_left)

refused_type :
    (s : List ℕ)
    → c_str s ≢ codes "c"
    → c_str s ≢ codes "d"
    → is_tipo_transacao_valido (some s) ≡ ok false
unfolding is_tipo_transacao_valido
refused_type s c d =
    let one = strlen s == 1 in
    let is_c = get_or s 0 0 == b'c' in
    let is_d = get_or s 0 0 == b'd' in
    elim (Bool-cases (one && (is_c || is_d))) [
      | inr f ↦ ap ok f
      | inl h ↦ elim (one_of one is_c is_d h) [
        | inl x ↦ absurd (c (c_str-single s b'c' x))
        | inr y ↦ absurd (d (c_str-single s b'd' y))
      ]
    ]

refused_length :
    (s : List ℕ)
    → is_descricao_transacao_valida (some s)
      ≡ (leb 1 (string_util_utf8_strlen s) && leb (string_util_utf8_strlen s) 10)
unfolding is_descricao_transacao_valida
refused_length s = refl

not_positive_lem : (z : ℤ) → z ≤ℤ pos 0 → is_valor_transacao_valido z ≡ false
unfolding is_valor_transacao_valido
not_positive_lem z h = ground arith

module _ (js : Jansson) where
  open js use {Json, string_value, is_integer, integer_value}

  -- With a description that is no string, or has no character or more than 10, the other fields may be
  -- anything; the others are refused where the type is a string.
  pub data IsInvalid (json_valor json_tipo json_descricao : Option Json) : Type 0 where
    no_descricao :
        string_value json_descricao ≡ none → IsInvalid json_valor json_tipo json_descricao
    empty_descricao :
        {s : List ℕ}
        → string_value json_descricao ≡ some s
        → string_util_utf8_strlen s ≡ 0
        → IsInvalid json_valor json_tipo json_descricao
    long_descricao :
        {s : List ℕ}
        → string_value json_descricao ≡ some s
        → 10 < string_util_utf8_strlen s
        → IsInvalid json_valor json_tipo json_descricao
    other_tipo :
        {s : List ℕ}
        → string_value json_tipo ≡ some s
        → c_str s ≢ codes "c"
        → c_str s ≢ codes "d"
        → IsInvalid json_valor json_tipo json_descricao
    no_integer :
        {s : List ℕ}
        → string_value json_tipo ≡ some s
        → is_integer json_valor ≡ false
        → IsInvalid json_valor json_tipo json_descricao
    not_positive :
        {s : List ℕ}
        → string_value json_tipo ≡ some s
        → integer_value json_valor ≤ℤ pos 0
        → IsInvalid json_valor json_tipo json_descricao

  -- The condition is false where one of its tests is, and the one before the test of a type that is a
  -- string is not reached.
  refused_descricao :
      (json_valor json_tipo json_descricao : Option Json)
      → is_descricao_transacao_valida (string_value json_descricao) ≡ false
      → campos_validos js json_valor json_tipo json_descricao ≡ ok false
  unfolding campos_validos
  refused_descricao json_valor json_tipo json_descricao e = rw (e, campos_validos) refl

  refused_tipo :
      (json_valor json_tipo json_descricao : Option Json) {b : Bool}
      → is_tipo_transacao_valido (string_value json_tipo) ≡ ok b
      → (b && (is_integer json_valor && is_valor_transacao_valido (integer_value json_valor)))
        ≡ false
      → campos_validos js json_valor json_tipo json_descricao ≡ ok false
  unfolding campos_validos
  refused_tipo json_valor json_tipo json_descricao {b} e h =
      elim (Bool-cases (is_descricao_transacao_valida (string_value json_descricao))) [
        | inr f ↦ refused_descricao json_valor json_tipo json_descricao f
        | inl y ↦
            rw (y, campos_validos)
              (rw e (elim (Bool-cases b) [ inl t ↦ rw t (ap ok (rw t at h)) | inr n ↦ rw n refl ]))
      ]

  pub IsInvalid-campos_validos :
      (json_valor json_tipo json_descricao : Option Json)
      → IsInvalid json_valor json_tipo json_descricao
      → campos_validos js json_valor json_tipo json_descricao ≡ ok false
  unfolding is_tipo_transacao_valido is_descricao_transacao_valida
  IsInvalid-campos_validos v t d (no_descricao e) =
      refused_descricao v t d (ap is_descricao_transacao_valida e)
  IsInvalid-campos_validos v t d (empty_descricao {s} e h) =
      refused_descricao v t d (ap is_descricao_transacao_valida e ∙ rw h refl)
  IsInvalid-campos_validos v t d (long_descricao {s} e h) =
      refused_descricao v t d (ap is_descricao_transacao_valida e ∙ ground (arith, h))
  IsInvalid-campos_validos v t d (other_tipo {s} e c k) =
      refused_tipo v t d (ap is_tipo_transacao_valido e ∙ refused_type s c k) refl
  IsInvalid-campos_validos v t d (no_integer {s} e h) =
      refused_tipo v t d (ap is_tipo_transacao_valido e) (rw h (ground arith))
  IsInvalid-campos_validos v t d (not_positive {s} e h) =
      refused_tipo v t d (ap is_tipo_transacao_valido e)
        (rw (not_positive_lem (integer_value v) h) (ground arith))
