-- ===== src/Controller/Url.antt =====
-- controller/cliente_controller.c: the patterns, and the parameter of a URL.
pub mod Param
use crinha.Prelude.{
  ℕ, ◌+◌, ◌-◌, ◌==◌, if◌then◌else◌, Option, none, some, List, [], ◌∷◌, ◌++◌, codes, joined, take,
  drop, Exec, ok, ◌>>=◌,
}
use crinha.Clib.Memory.{sprintf}
use crinha.Clib.Regex.{regcomp, regexec, Found}

abbrev pub max_buffer_url_param : ℕ
max_buffer_url_param = 128

abbrev backslash : List ℕ
backslash = 0x5c ∷ []

-- MATCH_ONE_URL_PARAM.
abbrev pub match_one_url_param : List ℕ → List ℕ → List ℕ
match_one_url_param str str2 = joined (
    codes "^"
    ∷ backslash
    ∷ str
    ∷ backslash
    ∷ codes "/([a-zA-Z0-9"
    ∷ backslash
    ∷ codes "-]*)"
    ∷ backslash
    ∷ str2
    ∷ codes "$"
    ∷ [])

-- EXTRACT_ONE_URL_PARAM.
abbrev pub extract_one_url_param : List ℕ
extract_one_url_param = joined (backslash ∷ codes "/([0-9]*)" ∷ backslash ∷ codes "/" ∷ [])

abbrev pub url_find_by_id : List ℕ
url_find_by_id = match_one_url_param (codes "/clientes") (codes "/extrato")

abbrev pub url_transacao_save : List ℕ
url_transacao_save = match_one_url_param (codes "/clientes") (codes "/transacoes")

-- The length of the match, and the buffer's string: the match without its ends. 0 and no string if
-- nothing matches.
unfoldable pub extract_param_regex : ℕ → List ℕ → List ℕ → Exec (ℕ × List ℕ)
extract_param_regex cap pattern str = elim (regcomp pattern) [
  | none ↦ ok (0, [])
  | some p ↦ elim (regexec p str) [
    | none ↦ ok (0, [])
    | some f ↦ do
      let len = f.end - f.start
      text ← sprintf cap (take (len - 2) (drop (f.start + 1) str))
      ok (len, text)
  ]
]

-- Without a match the buffer's first byte is set to NUL.
unfoldable pub extract_param : ℕ → List ℕ → Exec (List ℕ)
extract_param cap url = do
  (len, text) ← extract_param_regex cap extract_one_url_param url
  ok (if len == 0 then [] else text)

unfoldable pub extract_url_param : List ℕ → Exec (List ℕ)
extract_url_param url = extract_param max_buffer_url_param url
