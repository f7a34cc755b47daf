-- ===== src/HttpParser/Failure.antt =====
-- server/http_parser.c: what a parse error leaves behind.
use crinha.Prelude.{
  ℕ, ◌≡◌, ap, subst, true, false, List, arith, ok, >>=-eq-ok, ok_injective, Bool-cases, inl, inr,
}
use crinha.HttpParser.Llhttp.{Llhttp, Run, returns, calls}
use crinha.HttpParser.Request.{HttpRequest, handle}
use crinha.HttpParser.Parser.{HttpParser, run_callbacks, http_parser_parse, resumed, is_error}
use crinha.HttpParser.Buffers.{IsValid, run_callbacks-IsValid}

-- A statement of every way in which a call of llhttp can end.
abbrev pub Leaves : {P : Type 0} → (P → ℕ → Type 0) → Run P → Type 0
Leaves Q (returns p status) = Q p status
Leaves Q (calls e k) = (code : ℕ) → Leaves Q (k code)

-- What llhttp.h documents: `llhttp_get_errno` is the latest error returned, and after an error that
-- is no pause `llhttp_execute` returns the same error, until `llhttp_init` is called.
pub record Documented (ll : Llhttp) : Type 0 where
  pub execute_errno :
      (p : ll.P) (text : List ℕ) → Leaves (λ q status. ll.get_errno q ≡ status) (ll.execute p text)
  pub execute_failed :
      (p : ll.P) (text : List ℕ)
      → is_error ll (ll.get_errno p) ≡ true
      → Leaves (λ q status. status ≡ ll.get_errno p) (ll.execute p text)
  pub finish_failed :
      (p : ll.P)
      → is_error ll (ll.get_errno p) ≡ true
      → Leaves (λ q status. ll.get_errno q ≡ ll.get_errno p) (ll.finish p)

module _ (ll : Llhttp) where
  abbrev pub HasFailed : HttpParser ll → Type 0
  HasFailed s = is_error ll (ll.get_errno s.parser) ≡ true

  run_callbacks-Leaves :
      (Q : ll.P → ℕ → Type 0) (run : Run ll.P) (r : HttpRequest) {p : ll.P} {status : ℕ}
      {r' : HttpRequest}
      → Leaves Q run
      → run_callbacks ll run r ≡ ok (p, status, r')
      → Q p status
  unfolding run_callbacks
  run_callbacks-Leaves Q (returns q st) r {p} {status} h e =
      let same = ok_injective e in
      subst (λ (t : ℕ). Q p t) (ap (λ t. t.1) same)
        (subst (λ (t : ll.P). Q t st) (ap (λ t. t.0) same) h)
  run_callbacks-Leaves Q (calls ev k) r h e =
      let (x, e', e'') = >>=-eq-ok (handle ev r) _ e in
      run_callbacks-Leaves Q (k x.1) x.0 (h x.1) e''

  not_resumed : (p : ll.P) → is_error ll (ll.get_errno p) ≡ true → resumed ll p ≡ p
  not_resumed p h = ground arith

  module _ (doc : Documented ll) where
    -- A parse that reports failure leaves a failed parser.
    pub http_parser_parse-HasFailed :
        (s : HttpParser ll) (text : List ℕ) {s' : HttpParser ll}
        → IsValid s.request
        → http_parser_parse ll s text ≡ ok (s', false)
        → HasFailed s'
    unfolding http_parser_parse
    http_parser_parse-HasFailed s text {s'} v h =
        let run = ll.execute (resumed ll s.parser) text in
        let (p, status, r, e, v') = run_callbacks-IsValid ll run s.request v in
        let errno = run_callbacks-Leaves _ run s.request (doc.execute_errno _ text) e in
        elim (Bool-cases (is_error ll status)) [
          | inl bad ↦
              let (p', st, r', e', v'') = run_callbacks-IsValid ll (ll.finish p) r v' in
              let failed : is_error ll (ll.get_errno p) ≡ true = rw errno bad in
              let kept = run_callbacks-Leaves _ (ll.finish p) r (doc.finish_failed p failed) e' in
              let same : record { parser = p'; request = r' } ≡ s' =
                ap (λ t. t.0) (ok_injective (rw (e, bad, e') at h)) in
              subst HasFailed same (rw (kept, errno) bad)
          | inr good ↦ absurd (cc (rw (e, good) at h))
        ]

    -- Once llhttp has returned an error that is no pause, `http_parser_parse` refuses whatever comes
    -- next, and the error stays (llhttp does what llhttp.h documents; the request is valid).
    pub HasFailed-http_parser_parse :
        (s : HttpParser ll) (text : List ℕ)
        → IsValid s.request
        → HasFailed s
        → (s' : HttpParser ll) × (http_parser_parse ll s text ≡ ok (s', false))
          × HasFailed s'
          × IsValid s'.request
    unfolding http_parser_parse
    HasFailed-http_parser_parse s text v f =
        let run = ll.execute s.parser text in
        let (p, status, r, e, v') = run_callbacks-IsValid ll run s.request v in
        let again = run_callbacks-Leaves _ run s.request (doc.execute_failed s.parser text f) e in
        let errno = run_callbacks-Leaves _ run s.request (doc.execute_errno s.parser text) e in
        let (p', st, r', e', v'') = run_callbacks-IsValid ll (ll.finish p) r v' in
        let failed : is_error ll (ll.get_errno p) ≡ true = rw (errno, again) f in
        let kept = run_callbacks-Leaves _ (ll.finish p) r (doc.finish_failed p failed) e' in
        let status_bad : is_error ll status ≡ true = rw again f in
        (
          record { parser = p'; request = r' },
          rw (not_resumed s.parser f, e, status_bad, e'),
          rw kept failed,
          v'',
        )
