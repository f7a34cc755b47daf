-- ===== src/Controller/Url/Param.antt =====
-- controller/cliente_controller.c: which URLs the routes match, and the parameter that is taken from
-- one.
use crinha.Prelude.{
  ℕ, zero, suc, ◌+◌, ◌-◌, ◌≡◌, refl, ap, ◌∙◌, ◌≢◌, ◌↔◌, true, false, Bool-cases, inl, inr, Option,
  none, some, Option-cases, List, [], ◌∷◌, ◌++◌, codes, length, take, drop, ltb, if◌then◌else◌,
  arith, ok, fault, out_of_bounds,
}
use crinha.Clib.Memory.{sprintf, isdigit}
use crinha.Clib.Decimal.RoundTrip.{AllDigits}
use crinha.Clib.Regex.{
  regcomp, regexec, Pattern, one, many, match_items, search_from, Found, in_set, CharSet,
}
use crinha.Clib.Regex.Matching.{AllIn}
use crinha.Clib.Regex.Framed.{framed, framed-matches_iff}
use crinha.Router.{router_match_url}
use crinha.Controller.Url.{
  url_find_by_id, url_transacao_save, extract_one_url_param, extract_param_regex, extract_param,
  extract_url_param,
}

-- What stands between the two parts of a route's pattern. (In a bracket `\` is itself.)
abbrev pub id_set : CharSet
id_set = (b'-', b'-') ∷ (0x5c, 0x5c) ∷ (b'0', b'9') ∷ (b'A', b'Z') ∷ (b'a', b'z') ∷ []

compiled_find :
    regcomp url_find_by_id ≡ some (framed (codes "/clientes/") id_set (codes "/extrato"))
unfolding regcomp
compiled_find = refl

compiled_save :
    regcomp url_transacao_save ≡ some (framed (codes "/clientes/") id_set (codes "/transacoes"))
unfolding regcomp
compiled_save = refl

match_url-framed :
    (pattern u : List ℕ) (p : Pattern)
    → regcomp pattern ≡ some p
    → (router_match_url pattern u ≡ true) ↔ (regexec p u ≢ none)
unfolding router_match_url
match_url-framed pattern u p e =
    rw (e, router_match_url)
      (elim (Option-cases (regexec p u)) [
        | inl missed ↦ rw missed ((λ h. absurd (cc)), λ h. absurd (h refl))
        | inr (f, found) ↦ rw found ((λ h n. cc), λ h. refl)
      ])

-- The route of the statement matches the paths /clientes/P/extrato, P of letters, digits, `-` and
-- `\`, and no other.
pub match_url_find_iff :
    (u : List ℕ)
    → (router_match_url url_find_by_id u ≡ true)
      ↔ ((p : List ℕ) × (u ≡ codes "/clientes/" ++ (p ++ codes "/extrato")) × AllIn id_set p)
match_url_find_iff u =
    let (to, from) = match_url-framed url_find_by_id u _ compiled_find in
    let (to', from') = framed-matches_iff (codes "/clientes/") (codes "/extrato") id_set u in
    (λ h. to' (to h), λ h. from (from' h))

-- The route that saves a transaction matches the paths /clientes/P/transacoes, P of letters, digits,
-- `-` and `\`, and no other.
pub match_url_save_iff :
    (u : List ℕ)
    → (router_match_url url_transacao_save u ≡ true)
      ↔ ((p : List ℕ) × (u ≡ codes "/clientes/" ++ (p ++ codes "/transacoes")) × AllIn id_set p)
match_url_save_iff u =
    let (to, from) = match_url-framed url_transacao_save u _ compiled_save in
    let (to', from') = framed-matches_iff (codes "/clientes/") (codes "/transacoes") id_set u in
    (λ h. to' (to h), λ h. from (from' h))

abbrev digit_set : CharSet
digit_set = (b'0', b'9') ∷ []

abbrev slash_set : CharSet
slash_set = (b'/', b'/') ∷ []

abbrev slash_digits : Pattern
slash_digits = record {
  from_start = false;
  items = one slash_set ∷ many digit_set ∷ one slash_set ∷ [];
  to_end = false;
}

compiled_extract : regcomp extract_one_url_param ≡ some slash_digits
unfolding regcomp
compiled_extract = refl

-- The two routes' ends.
pub data Suffix : Type 0 where
  extrato transacoes : Suffix

abbrev pub suffix : Suffix → List ℕ
suffix extrato = codes "/extrato"
suffix transacoes = codes "/transacoes"

abbrev pub url_of : List ℕ → Suffix → List ℕ
url_of p t = codes "/clientes/" ++ (p ++ suffix t)

digits_then_slash :
    (p r : List ℕ)
    → AllDigits p
    → match_items false (many digit_set ∷ one slash_set ∷ []) (p ++ b'/' ∷ r)
      ≡ some (suc (length p))
unfolding match_items
digits_then_slash [] r h = refl
digits_then_slash (d ∷ p) r h =
    let y : in_set digit_set d ≡ true = ground (arith, h.0) in
    let x : in_set slash_set d ≡ false = ground (arith, h.0) in
    ground (arith, digits_then_slash p r h.1)

digits_then_other :
    (p w : List ℕ)
    → AllIn id_set p
    → ¬ AllDigits p
    → match_items false (many digit_set ∷ one slash_set ∷ []) (p ++ w) ≡ none
unfolding match_items
digits_then_other [] w a n = absurd (n tt)
digits_then_other (c ∷ p) w a n =
    let x : in_set slash_set c ≡ false = ground (arith, a.0) in
    elim (Bool-cases (isdigit c)) [
      | inl d ↦
          let y : in_set digit_set c ≡ true = ground (arith, d) in
          let rest = digits_then_other p w a.1 (λ all. n (d, all)) in ground (arith, rest)
      | inr d ↦ let y : in_set digit_set c ≡ false = ground (arith, d) in ground arith
    ]

skip_clientes :
    (t : List ℕ)
    → search_from slash_digits 0 (codes "/clientes" ++ t) ≡ search_from slash_digits 9 t
unfolding search_from match_items
skip_clientes t = refl

skip_suffix : (k : ℕ) (t : Suffix) → search_from slash_digits k (suffix t) ≡ none
unfolding search_from match_items
skip_suffix k extrato = refl
skip_suffix k transacoes = refl

skip_param :
    (k : ℕ) (p : List ℕ) (t : Suffix)
    → AllIn id_set p
    → search_from slash_digits k (p ++ suffix t) ≡ none
unfolding search_from match_items
skip_param k [] t a = skip_suffix k t
skip_param k (c ∷ p) t a =
    let x : in_set slash_set c ≡ false = ground (arith, a.0) in
    ground (arith, skip_param (k + 1) p t a.1)

abbrev after_slash : List ℕ → Option ℕ
after_slash s = match_items false (many digit_set ∷ one slash_set ∷ []) s

at_slash_some :
    (s : List ℕ) (n : ℕ)
    → after_slash s ≡ some n
    → search_from slash_digits 9 (b'/' ∷ s) ≡ some (record { start = 9; end = 9 + suc n })
unfolding search_from
at_slash_some s n e = ground (arith, e)

at_slash_none :
    (s : List ℕ)
    → after_slash s ≡ none
    → search_from slash_digits 9 (b'/' ∷ s) ≡ search_from slash_digits 10 s
unfolding search_from
at_slash_none s e = ground (arith, e)

digits_then_suffix :
    (p : List ℕ) (t : Suffix) → AllDigits p → after_slash (p ++ suffix t) ≡ some (suc (length p))
digits_then_suffix p extrato h = digits_then_slash p (codes "extrato") h
digits_then_suffix p transacoes h = digits_then_slash p (codes "transacoes") h

found_digits :
    (p : List ℕ) (t : Suffix)
    → AllDigits p
    → regexec slash_digits (url_of p t)
      ≡ some (record { start = 9; end = 9 + suc (suc (length p)) })
unfolding regexec
found_digits p t h =
    skip_clientes (b'/' ∷ (p ++ suffix t))
    ∙ at_slash_some (p ++ suffix t) (suc (length p)) (digits_then_suffix p t h)

found_none :
    (p : List ℕ) (t : Suffix)
    → AllIn id_set p
    → ¬ AllDigits p
    → regexec slash_digits (url_of p t) ≡ none
unfolding regexec
found_none p t a n =
    skip_clientes (b'/' ∷ (p ++ suffix t))
    ∙ at_slash_none (p ++ suffix t) (digits_then_other p (suffix t) a n)
    ∙ skip_param 10 p t a

take-append_exact : (p r : List ℕ) (k : ℕ) → k ≡ length p → take k (p ++ r) ≡ p
take-append_exact [] r zero e = refl
take-append_exact [] r (suc k) e = absurd (omega arith)
take-append_exact (c ∷ p) r zero e = absurd (omega arith)
take-append_exact (c ∷ p) r (suc k) e = ap (λ t. c ∷ t) (take-append_exact p r k (omega arith))

extract_found :
    (cap : ℕ) (u p : List ℕ) (f : Found)
    → regexec slash_digits u ≡ some f
    → take (f.end - f.start - 2) (drop (f.start + 1) u) ≡ p
    → extract_param_regex cap extract_one_url_param u
      ≡ (if ltb (length p) cap then ok (f.end - f.start, p) else fault out_of_bounds)
unfolding extract_param_regex sprintf
extract_found cap u p f e h = rw (compiled_extract, extract_param_regex) (rw (e, h) (ground arith))

drop_prefix : (p : List ℕ) (t : Suffix) → drop (9 + 1) (url_of p t) ≡ p ++ suffix t
drop_prefix p t = refl

-- The parameter of a URL that a route matches is the number between its slashes, if it is shorter
-- than the buffer of 128 bytes; a longer one is written past the buffer's end.
pub extract_url_param_digits :
    (p : List ℕ) (t : Suffix)
    → AllDigits p
    → extract_url_param (url_of p t) ≡ (if ltb (length p) 128 then ok p else fault out_of_bounds)
unfolding extract_url_param extract_param
extract_url_param_digits p t h =
    let f : Found = record { start = 9; end = 9 + suc (suc (length p)) } in
    let text : take (f.end - f.start - 2) (drop (f.start + 1) (url_of p t)) ≡ p =
      take-append_exact p (suffix t) (f.end - f.start - 2) (omega arith) in
    let e = extract_found 128 (url_of p t) p f (found_digits p t h) text in rw e (ground arith)

-- Any other parameter that a route lets through is taken for the empty string.
pub extract_url_param_other :
    (p : List ℕ) (t : Suffix)
    → AllIn id_set p
    → ¬ AllDigits p
    → extract_url_param (url_of p t) ≡ ok []
unfolding extract_url_param extract_param extract_param_regex
extract_url_param_other p t a n =
    rw (compiled_extract, extract_param_regex) (rw (found_none p t a n) refl)
