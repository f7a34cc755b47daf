-- ===== src/Account/Extrato/Printed.antt =====
-- controller/cliente_controller.c: the text that the builders of the statement lead to.
use crinha.Prelude.{
  ℕ, ◌≡◌, refl, sym, ap, ◌∙◌, subst, append_assoc, append-nil, ◌++◌, Option, none, some,
  Option-cases, inl, inr, List, [], ◌∷◌, codes,
}
use crinha.Clib.Memory.{sprintf}
use crinha.Entity.{Cliente, Transacao}
use crinha.Controller.Jansson.{Jansson, object}
use crinha.Controller.Response.{
  respond, http_200_json, build_json_saldo_data, build_json_transacao, append_transacoes,
  build_json_transacoes, build_json_extrato,
}
use crinha.Account.Extrato.{
  Writes, IsWritable, transacao_text, transacoes_texts, saldo_data_text, extrato_text, object_of,
  or_null,
}

module _ (js : Jansson) (w : Writes js) where
  abbrev q : List ℕ → Option (List ℕ)
  q = w.text_of_string

  transacao_text_lem : (t : Transacao) → js.dumps (build_json_transacao js t) ≡ transacao_text q t
  unfolding build_json_transacao transacao_text
  transacao_text_lem t = w.pack _ refl (tt, (tt, (tt, (tt, tt))))

  transacao-value :
      (t : Transacao) (j : js.Json)
      → build_json_transacao js t ≡ some j
      → (x : List ℕ) × (js.dumps (some j) ≡ some x)
  unfolding build_json_transacao
  transacao-value t j e = w.value _ j e

  append_made :
      (t : Transacao) (a : Option js.Json) (texts : List (List ℕ)) (x : List ℕ)
      → w.IsArray a texts
      → js.dumps (build_json_transacao js t) ≡ some x
      → w.IsArray (js.array_append_new a (build_json_transacao js t)) (texts ++ x ∷ [])
  unfolding build_json_transacao
  append_made t a texts x h e = w.append a texts _ x h e

  -- NULL, or an object.
  saldo_data-IsWritable :
      (c : Cliente) (date : List ℕ) → IsWritable js.dumps (object (build_json_saldo_data js c date))
  unfolding build_json_saldo_data
  saldo_data-IsWritable c date = elim (Option-cases (build_json_saldo_data js c date)) [
    | inl e ↦ inl e
    | inr (j, e) ↦ let (x, printed) = w.value _ j e in inr (x, ap js.dumps e ∙ printed)
  ]

  saldo_data_text_lem :
      (c : Cliente) (date : List ℕ)
      → js.dumps (build_json_saldo_data js c date) ≡ saldo_data_text q c date
  unfolding build_json_saldo_data
  saldo_data_text_lem c date = w.pack _ refl (tt, (tt, (tt, tt)))

  texts_none :
      (t : Transacao) (ts : List Transacao)
      → transacao_text q t ≡ none
      → transacoes_texts q ts ≡ transacoes_texts q (t ∷ ts)
  unfolding transacoes_texts
  texts_none t ts e = rw (e, transacoes_texts) refl

  texts_some :
      (t : Transacao) (ts : List Transacao) {x : List ℕ}
      → transacao_text q t ≡ some x
      → x ∷ transacoes_texts q ts ≡ transacoes_texts q (t ∷ ts)
  unfolding transacoes_texts
  texts_some t ts e = rw (e, transacoes_texts) refl

  append_transacoes-IsArray :
      (ts : List Transacao) (a : Option js.Json) (texts : List (List ℕ))
      → w.IsArray a texts
      → w.IsArray (append_transacoes js a ts) (texts ++ transacoes_texts q ts)
  unfolding append_transacoes transacoes_texts
  append_transacoes-IsArray [] a texts h = subst (w.IsArray a) (sym (append-nil texts)) h
  append_transacoes-IsArray (t ∷ ts) a texts h =
      let made = build_json_transacao js t in
      let next = js.array_append_new a made in
      elim (Option-cases made) [
        | inl e ↦
            let left_out : transacao_text q t ≡ none =
              sym (transacao_text_lem t) ∙ ap js.dumps e ∙ w.null in
            let kept : w.IsArray next texts =
              subst (λ x. w.IsArray (js.array_append_new a x) texts) (sym e)
                (w.append_null a texts h) in
            subst (λ x. w.IsArray (append_transacoes js next ts) (texts ++ x))
              (texts_none t ts left_out) (append_transacoes-IsArray ts next texts kept)
        | inr (j, e) ↦
            let (x, printed) = transacao-value t j e in
            let dumped : js.dumps made ≡ some x = ap js.dumps e ∙ printed in
            subst (w.IsArray (append_transacoes js next ts))
              (append_assoc texts (x ∷ []) (transacoes_texts q ts)
                ∙ ap (λ r. texts ++ r) (texts_some t ts (sym (transacao_text_lem t) ∙ dumped)))
              (append_transacoes-IsArray ts next (texts ++ x ∷ [])
                (append_made t a texts x h dumped))
      ]

  -- The statement is printed as its text.
  pub extrato_text_lem :
      (c : Cliente) (date : List ℕ) (ts : List Transacao)
      → js.dumps
          (build_json_extrato js (build_json_saldo_data js c date) (build_json_transacoes js ts))
        ≡ some (extrato_text q c date ts)
  unfolding build_json_extrato build_json_transacoes extrato_text
  extrato_text_lem c date ts =
      w.pack _ refl (
        saldo_data-IsWritable c date,
        (inr (_, w.prints _ _ (append_transacoes-IsArray ts js.array [] w.array)), tt),
      )
      ∙ ap
          (λ x. some (
            object_of (
              (codes "saldo", or_null x)
              ∷ (codes "ultimas_transacoes", or_null (js.dumps (build_json_transacoes js ts)))
              ∷ [])))
          (saldo_data_text_lem c date)
      ∙ ap
          (λ x. some (
            object_of (
              (codes "saldo", or_null (saldo_data_text q c date))
              ∷ (codes "ultimas_transacoes", or_null x)
              ∷ [])))
          (w.prints _ _ (append_transacoes-IsArray ts js.array [] w.array))

  pub respond-extrato :
      (c : Cliente) (date : List ℕ) (ts : List Transacao)
      → respond 2048 (
          js.dumps
            (build_json_extrato js (build_json_saldo_data js c date) (build_json_transacoes js ts)))
        ≡ sprintf 2048 (http_200_json (extrato_text q c date ts))
  unfolding respond
  respond-extrato c date ts = ap (respond 2048) (extrato_text_lem c date ts)
