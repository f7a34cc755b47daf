-- ===== src/HttpParser/Pieces.antt =====
-- server/http_parser.c: a URL that a read cuts in two.
use crinha.Prelude.{
  ℕ, ◌+◌, ◌<◌, ◌≡◌, sym, ap, ◌∙◌, append_assoc, List, ◌++◌, length, length-append, arith, ok,
}
use crinha.Clib.Memory.{c_str, strlen, IsText}
use crinha.Clib.Memory.Copy.{c_str-append, c_str-text, strlen-le}
use crinha.HttpParser.Request.{HttpRequest, handle_on_url}
use crinha.HttpParser.Buffers.{IsValid, handle_on_url_fits}

-- A URL that fits, and that llhttp reports in two pieces, as it does where a read ends inside it, is the
-- URL that it would report in one: both are taken, and the strings are the same (the first piece has
-- no NUL, and the request was valid).
pub handle_on_url-append :
    (r : HttpRequest) (a b : List ℕ)
    → IsValid r
    → IsText a
    → length a + length b + strlen r.url < 256
    → (one two three : HttpRequest) × (handle_on_url r a ≡ ok (one, 0))
      × (handle_on_url one b ≡ ok (two, 0))
      × (handle_on_url r (a ++ b) ≡ ok (three, 0))
      × (c_str two.url ≡ c_str three.url)
handle_on_url-append r a b v t h =
    let k1 = handle_on_url_fits r a v (omega arith) in
    let room : length b + strlen k1.after.url < 256 =
      omega (arith, ap length k1.url_is, length-append (c_str r.url) (c_str a), strlen-le a) in
    let k2 = handle_on_url_fits k1.after b k1.valid room in
    let k3 = handle_on_url_fits r (a ++ b) v (omega (arith, length-append a b)) in
    let whole : c_str k2.after.url ≡ c_str k3.after.url =
      k2.url_is
      ∙ ap (λ u. u ++ c_str b) k1.url_is
      ∙ append_assoc (c_str r.url) (c_str a) (c_str b)
      ∙ ap (λ u. c_str r.url ++ u)
          (ap (λ u. u ++ c_str b) (c_str-text a t) ∙ sym (c_str-append a b t))
      ∙ sym k3.url_is in
    (k1.after, k2.after, k3.after, k1.outcome, k2.outcome, k3.outcome, whole)
