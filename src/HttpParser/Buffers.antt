-- ===== src/HttpParser/Buffers.antt =====
-- server/http_parser.c: the buffers of a request never overflow, and hold what llhttp reported.
use crinha.Prelude.{
  ℕ, ◌+◌, ◌≤◌, ◌<◌, ◌≡◌, refl, ap, ◌∙◌, Bool, true, false, List, [], ◌∷◌, ◌++◌, length,
  length-append, arith, leb, ltb, Exec, ok, Bool-cases, inl, inr, if◌then◌else◌,
}
use crinha.Clib.Memory.{c_str, strlen, write_at}
use crinha.Clib.Memory.Copy.{
  c_str-take-append, c_str-strncpy_bytes, take-le, strlen-le, write_at-fits, length-write_at,
}
use crinha.Util.StringUtil.{strzcpy}
use crinha.Util.StringUtil.Copy.{strzcpy_again}
use crinha.HttpParser.Llhttp.{
  Llhttp, Run, returns, calls, Event, on_url, on_body, on_message_complete,
}
use crinha.HttpParser.Request.{
  HttpRequest, handle_on_url, handle_on_body, handle_on_message_complete, handle, clear_request,
}
use crinha.HttpParser.Parser.{
  HttpParser, resumed, is_error, run_callbacks, http_parser_parse, http_parser_reset_request,
}

-- The arrays have their sizes, and the strings in them end inside.
pub record IsValid (r : HttpRequest) : Type 0 where
  pub url_size : length r.url ≡ 257
  pub url_string : strlen r.url ≤ 255
  pub body_size : length r.body ≡ 1025
  pub body_string : strlen r.body ≤ 1024

-- Appending to the string of a buffer, with the second NUL that the callbacks write.
append_to :
    (buf at : List ℕ)
    → strlen buf + length at < length buf
    → (copied out : List ℕ) × (strzcpy buf (strlen buf) at (length at) ≡ ok copied)
      × (write_at copied (length at + strlen buf) (0 ∷ []) ≡ ok out)
      × (length out ≡ length buf)
      × (c_str out ≡ c_str buf ++ c_str at)
append_to buf at h =
    let (copied, out, r, e, w, shape, size) = strzcpy_again buf (strlen buf) at (length at) h in
    (
      copied,
      out,
      e,
      w,
      size,
      ap c_str shape
          ∙ c_str-take-append buf _
          ∙ ap (λ t. c_str buf ++ t)
              (c_str-strncpy_bytes at (length at) r
                ∙ take-le (length at) (c_str at) (strlen-le at)),
    )

-- What a callback leaves of a valid request, returning HPE_OK.
pub record Handled (r : HttpRequest) (url body : List ℕ) (complete : Bool)
    (m : Exec (HttpRequest × ℕ)) : Type 0 where
  pub after : HttpRequest
  pub outcome : m ≡ ok (after, 0)
  pub valid : IsValid after
  pub url_is : c_str after.url ≡ url
  pub body_is : c_str after.body ≡ body
  pub complete_is : after.complete ≡ complete

module _ (r : HttpRequest) (at : List ℕ) (v : IsValid r) where
  -- A piece of a URL that leaves the URL below 256 bytes is appended to the string that was there, and
  -- the request stays valid (it was valid).
  pub handle_on_url_fits :
      length at + strlen r.url < 256
      → Handled r (c_str r.url ++ c_str at) (c_str r.body) r.complete (handle_on_url r at)
  unfolding handle_on_url
  handle_on_url_fits h =
      let (copied, out, e, w, size, text) = append_to r.url at (omega (arith, v.url_size)) in
      record {
        after = record r { url = out };
        outcome = ground (arith, e, w);
        valid = record {
          url_size = size ∙ v.url_size;
          url_string = omega (
            arith,
            ap length text,
            length-append (c_str r.url) (c_str at),
            strlen-le at,
            v.url_string,
          );
          body_size = v.body_size;
          body_string = v.body_string;
        };
        url_is = text;
        body_is = refl;
        complete_is = refl;
      }

  -- One that does not is refused, and nothing is written.
  pub handle_on_url_refused : 256 ≤ length at + strlen r.url → handle_on_url r at ≡ ok (r, 1)
  unfolding handle_on_url
  handle_on_url_refused h = ground arith

  -- A piece of a body that leaves the body at 1024 bytes or fewer is appended to the string that was
  -- there, and the request stays valid (it was valid).
  pub handle_on_body_fits :
      length at + strlen r.body ≤ 1024
      → Handled r (c_str r.url) (c_str r.body ++ c_str at) r.complete (handle_on_body r at)
  unfolding handle_on_body
  handle_on_body_fits h =
      let (copied, out, e, w, size, text) = append_to r.body at (omega (arith, v.body_size)) in
      record {
        after = record r { body = out };
        outcome = ground (arith, e, w);
        valid = record {
          url_size = v.url_size;
          url_string = v.url_string;
          body_size = size ∙ v.body_size;
          body_string = omega (
            arith,
            ap length text,
            length-append (c_str r.body) (c_str at),
            strlen-le at,
            v.body_string,
          );
        };
        url_is = refl;
        body_is = text;
        complete_is = refl;
      }

  pub handle_on_body_refused : 1024 < length at + strlen r.body → handle_on_body r at ≡ ok (r, 1)
  unfolding handle_on_body
  handle_on_body_refused h = ground arith

-- Every callback succeeds on a valid request, and leaves one.
pub handle-IsValid :
    (e : Event) (r : HttpRequest)
    → IsValid r
    → (r' : HttpRequest) × (code : ℕ) × (handle e r ≡ ok (r', code)) × IsValid r'
unfolding handle handle_on_message_complete
handle-IsValid (on_url at) r v = elim (Bool-cases (leb 256 (length at + strlen r.url))) [
  | inl full ↦ (r, 1, handle_on_url_refused r at v (ground arith), v)
  | inr room ↦ let k = handle_on_url_fits r at v (ground arith) in (k.after, 0, k.outcome, k.valid)
]
handle-IsValid (on_body at) r v = elim (Bool-cases (ltb 1024 (length at + strlen r.body))) [
  | inl full ↦ (r, 1, handle_on_body_refused r at v (ground arith), v)
  | inr room ↦ let k = handle_on_body_fits r at v (ground arith) in (k.after, 0, k.outcome, k.valid)
]
handle-IsValid on_message_complete r v = (
  record r { complete = true },
  0,
  refl,
  record {
    url_size = v.url_size;
    url_string = v.url_string;
    body_size = v.body_size;
    body_string = v.body_string;
  },
)

clear_request-IsValid :
    (r : HttpRequest)
    → length r.url ≡ 257
    → length r.body ≡ 1025
    → (r' : HttpRequest) × (clear_request r ≡ ok r')
      × IsValid r'
      × (c_str r'.url ≡ [])
      × (c_str r'.body ≡ [])
      × (r'.complete ≡ false)
unfolding clear_request
clear_request-IsValid r u b =
    let (x, e) = write_at-fits r.url 0 (0 ∷ []) (omega (arith, u)) in
    let (y, e') = write_at-fits r.body 0 (0 ∷ []) (omega (arith, b)) in
    (
      record { url = 0 ∷ x; body = 0 ∷ y; complete = false },
      ground (arith, e, e'),
      record {
        url_size = length-write_at r.url 0 (0 ∷ []) e ∙ u;
        url_string = omega arith;
        body_size = length-write_at r.body 0 (0 ∷ []) e' ∙ b;
        body_string = omega arith;
      },
      refl,
      refl,
      refl,
    )

module _ (ll : Llhttp) where
  pub run_callbacks-IsValid :
      (run : Run ll.P) (r : HttpRequest)
      → IsValid r
      → (p : ll.P) × (status : ℕ) × (r' : HttpRequest) × (run_callbacks ll run r
          ≡ ok (p, status, r'))
        × IsValid r'
  unfolding run_callbacks
  run_callbacks-IsValid (returns p status) r v = (p, status, r, refl, v)
  run_callbacks-IsValid (calls e k) r v =
      let (r', code, h, v') = handle-IsValid e r v in
      let (p, status, r'', h', v'') = run_callbacks-IsValid (k code) r' v' in
      (p, status, r'', rw h h', v'')

  -- Whatever llhttp reports of whatever bytes: on a valid request `http_parser_parse` writes inside the
  -- buffers, and leaves strings in them that end inside.
  pub http_parser_parse-IsValid :
      (s : HttpParser ll) (text : List ℕ)
      → IsValid s.request
      → (s' : HttpParser ll) × (parsed : Bool) × (http_parser_parse ll s text ≡ ok (s', parsed))
        × IsValid s'.request
  unfolding http_parser_parse
  http_parser_parse-IsValid s text v =
      let (p, status, r, e, v') =
        run_callbacks-IsValid (ll.execute (resumed ll s.parser) text) s.request v in
      elim (Bool-cases (is_error ll status)) [
        | inl bad ↦
            let (p', _, r', e', v'') = run_callbacks-IsValid (ll.finish p) r v' in
            (record { parser = p'; request = r' }, false, rw (e, bad, e'), v'')
        | inr good ↦ (record { parser = p; request = r }, true, rw (e, good), v')
      ]

  -- Resetting a valid request leaves a valid one whose URL and body are empty, and that is not
  -- complete.
  pub http_parser_reset_request-IsValid :
      (s : HttpParser ll)
      → IsValid s.request
      → (s' : HttpParser ll) × (http_parser_reset_request ll s ≡ ok s')
        × IsValid s'.request
        × (c_str s'.request.url ≡ [])
        × (c_str s'.request.body ≡ [])
        × (s'.request.complete ≡ false)
  unfolding http_parser_reset_request
  http_parser_reset_request-IsValid s v =
      let (r, e, v', u, b, c) = clear_request-IsValid s.request v.url_size v.body_size in
      (
        record {
          parser = if ll.is_closed s.parser then ll.reset s.parser else s.parser;
          request = r;
        },
        rw e,
        v',
        u,
        b,
        c,
      )
