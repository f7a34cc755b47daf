-- ===== src/Account/History.antt =====
-- controller/cliente_controller.c: one posted transaction after another.
use crinha.Prelude.{
  Bool, ℕ, ◌+◌, ◌*◌, ◌^◌, ◌<◌, ◌≤◌, ◌≡◌, ◌≢◌, refl, sym, ap, ◌∙◌, subst, ◌==◌, ==_iff, Bool-cases,
  inl, inr, false, Option, some, List, [], ◌∷◌, length, ok, arith,
}
use crinha.Prelude.Int.{pos_part, neg_part, neg_ℤ, ◌≤ℤ◌, ◌+ℤ◌, ◌-ℤ◌, IsInt32}
use crinha.Clib.Decimal.{decimal, atoi}
use crinha.Entity.{Cliente, Transacao}
use crinha.Db.Libpq.{Libpq, Drains}
use crinha.Db.State.{Db, M, bind_ok, pure, ◌>>=◌}
use crinha.Controller.Jansson.{Jansson}
use crinha.Controller.Url.Param.{transacoes, url_of}
use crinha.Controller.Validation.{is_credito}
use crinha.Controller.Handlers.{nova_transacao, cliente_controller_save_transacao}
use crinha.Controller.Handlers.Fields.{AreValid}
use crinha.Controller.Handlers.Requests.{valor_of, tipo_of, descricao_of}
use crinha.Account.{Table, balance, SaveStep, unknown, over_limit, unsent, accepted}
use crinha.Account.Bank.{Bank, IsPostable}
use crinha.Account.Reply.{Prints}
use crinha.Account.Saving.{is_sent, save-SaveStep}

-- No client is below minus its limit, and no balance is beyond a bound.
abbrev pub Funded : Table → Type 0
Funded table = (n : ℕ) (c : Cliente) → table n ≡ some c → neg_ℤ c.limite ≤ℤ c.saldo

abbrev pub Bounded : ℕ → Table → Type 0
Bounded bound table =
    (n : ℕ) (c : Cliente)
    → table n ≡ some c
    → (pos_part c.saldo ≤ bound) × (neg_part c.saldo ≤ bound)

same_client :
    (table : Table) (n : ℕ) {c c' : Cliente} → table n ≡ some c → table n ≡ some c' → c ≡ c'
same_client table n e e' = injective (sym e ∙ e')
  where
    injective : {a b : Cliente} → some a ≡ some b → a ≡ b
    injective h = cc

-- A property of all clients that the new row has, and that the others keep.
kept_by :
    (P : Cliente → Type 0) {k : ℕ} {t : Transacao} {before after : Table} {sent : Bool}
    {reply : List ℕ}
    → SaveStep k t before after sent reply
    → ((c c' : Cliente)
        → before k ≡ some c
        → c'.saldo ≡ balance c t
        → c'.limite ≡ c.limite
        → neg_ℤ c.limite ≤ℤ balance c t
        → P c')
    → ((n : ℕ) (c : Cliente) → before n ≡ some c → P c)
    → (n : ℕ) (c : Cliente) → after n ≡ some c
    → P c
kept_by P (unknown gone same) new old n c e = old n c (sym (same n) ∙ e)
kept_by P (over_limit here debit low same) new old n c e = old n c (sym (same n) ∙ e)
kept_by P (unsent no_command here low same) new old n c e = old n c (sym (same n) ∙ e)
kept_by P {k} {after = after}
      (accepted {c = was} {c' = now} command here there saldo limite low others) new old n c e =
    elim (Bool-cases (n == k)) [
      | inl y ↦
          let is_k : n ≡ k = (==_iff n k).0 y in
          subst P (same_client after k there (ap after (sym is_k) ∙ e))
            (new was now here saldo limite low)
      | inr f ↦ old n c (sym (others n (differ n k f)) ∙ e)
    ]
  where
    differ : (a b : ℕ) → (a == b) ≡ false → a ≢ b
    differ a b f h = ground arith

pub Funded-SaveStep :
    {k : ℕ} {t : Transacao} {before after : Table} {sent : Bool} {reply : List ℕ}
    → SaveStep k t before after sent reply
    → Funded before
    → Funded after
Funded-SaveStep step funded =
    kept_by (λ c. neg_ℤ c.limite ≤ℤ c.saldo) step
      (λ c c' here saldo limite low.
        subst (λ z. neg_ℤ z ≤ℤ c'.saldo) (sym limite)
          (subst (λ z. neg_ℤ c.limite ≤ℤ z) (sym saldo) low))
      funded

balance-bounded :
    (c : Cliente) (t : Transacao) (bound : ℕ)
    → (pos_part c.saldo ≤ bound) × (neg_part c.saldo ≤ bound)
    → IsInt32 t.valor
    → (pos_part (balance c t) ≤ bound + 2 ^ 31) × (neg_part (balance c t) ≤ bound + 2 ^ 31)
unfolding balance ◌+ℤ◌ ◌-ℤ◌
balance-bounded c t bound h v = elim (Bool-cases (is_credito t)) [
  | inl y ↦ rw y (ground arith, ground arith)
  | inr f ↦ rw f (ground arith, ground arith)
]

pub Bounded-SaveStep :
    {k : ℕ} {t : Transacao} {before after : Table} {sent : Bool} {reply : List ℕ} (bound : ℕ)
    → SaveStep k t before after sent reply
    → IsInt32 t.valor
    → Bounded bound before
    → Bounded (bound + 2 ^ 31) after
Bounded-SaveStep {k} {t} bound step v bounded =
    kept_by (λ c. (pos_part c.saldo ≤ bound + 2 ^ 31) × (neg_part c.saldo ≤ bound + 2 ^ 31)) step
      (λ c c' here saldo limite low.
        subst (λ z. (pos_part z ≤ bound + 2 ^ 31) × (neg_part z ≤ bound + 2 ^ 31)) (sym saldo)
          (balance-bounded c t bound (bounded k c here) v))
      (λ n c e. let (a, b) = bounded n c e in (omega (arith, a), omega (arith, b)))

module _ (js : Jansson) (pq : Libpq) where
  -- A request that posts a valid transaction.
  pub record Posting : Type 0 where
    pub n : ℕ
    pub small : n < 10 ^ 9
    pub text : List ℕ
    pub valid : AreValid js (valor_of js pq text) (tipo_of js pq text) (descricao_of js pq text)
    pub t : Transacao
    pub made :
        nova_transacao js
          (atoi (decimal n))
          (valor_of js pq text)
          (tipo_of js pq text)
          (descricao_of js pq text)
        ≡ ok t
    pub postable : IsPostable t

  abbrev pub request_of : Posting → M (Db pq) (List ℕ)
  request_of p =
      cliente_controller_save_transacao js pq (url_of (decimal p.n) transacoes) (some p.text)

  -- The handler on one request after another; the answers in their order.
  unfoldable pub save_all : List Posting → M (Db pq) (List (List ℕ))
  save_all [] = pure []
  save_all (p ∷ ps) = request_of p >>= λ reply. save_all ps >>= λ replies. pure (reply ∷ replies)

  module _ (drains : Drains pq) (prints : Prints js) (conn : Option pq.Conn) (bank : Bank pq conn)
      (live : ℕ) where
    abbrev pub at : pq.World → Db pq
    at w = record { pool = conn; world = w; live = live }

    -- Each posting of the list in its turn: the handler goes from the world before it to the one after
    -- it, with its answer, and that is the step of the specification for the posting's client and
    -- transaction.
    pub data History : pq.World → List Posting → List (List ℕ) → pq.World → Type 0 where
      done : {w : pq.World} → History w [] [] w
      step :
          {w w' w'' : pq.World} {p : Posting} {ps : List Posting} {reply : List ℕ}
          {replies : List (List ℕ)}
          → request_of p (at w) ≡ ok (reply, at w')
          → SaveStep p.n p.t (bank.rows w) (bank.rows w') (is_sent pq drains (at w) p.n p.t) reply
          → History w' ps replies w''
          → History w (p ∷ ps) (reply ∷ replies) w''

    same_state : (d : Db pq) → d.pool ≡ conn → d.live ≡ live → d ≡ at d.world
    same_state d p l = rw (p, l) refl

    -- However many valid transactions are posted, one after another, by whatever clients: each is
    -- answered, and does to the table what the specification's step for its client and its amount does,
    -- from the table that the one before has left; at the end no client is below minus its limit, and no
    -- block is kept. (No client is below at the start, and the balances have room for the amounts, each a
    -- 32-bit number; database and libraries are as in the theorem for one request.)
    pub save_all-History :
        (ps : List Posting) (w : pq.World) (bound : ℕ)
        → bound + length ps * 2 ^ 31 < 2 ^ 63
        → Funded (bank.rows w)
        → Bounded bound (bank.rows w)
        → (replies : List (List ℕ)) × (w' : pq.World) × (save_all ps
              (record { pool = conn; world = w; live = live })
            ≡ ok (replies, record { pool = conn; world = w'; live = live }))
          × History w ps replies w'
          × Funded (bank.rows w')
    unfolding save_all
    save_all-History [] w bound room funded bounded = ([], w, refl, done, funded)
    save_all-History (p ∷ ps) w bound room funded bounded =
        let range = λ (c : Cliente) (here : bank.rows w p.n ≡ some c).
          balance-bounded c p.t bound (bounded p.n c here) p.postable.valor in
        let (reply, d', e, pool, kept, one) =
          save-SaveStep js pq drains prints (at w) bank p.n p.small p.text p.valid p.t p.made
            p.postable
            (λ c here. (
              funded p.n c here,
              (omega (arith, (range c here).0, room), omega (arith, (range c here).1, room)),
            )) in
        let answered : request_of p (at w) ≡ ok (reply, at d'.world) =
          e ∙ ap (λ s. ok (reply, s)) (same_state d' pool kept) in
        let (replies, w', e', history, funded') =
          save_all-History ps d'.world (bound + 2 ^ 31) (omega arith) (Funded-SaveStep one funded)
            (Bounded-SaveStep bound one p.postable.valor bounded) in
        (
          reply ∷ replies,
          w',
          bind_ok (request_of p) _ (at w) (at d'.world) reply answered
              ∙ bind_ok (save_all ps) _ (at d'.world) (at w') replies e',
          step answered one history,
          funded',
        )
