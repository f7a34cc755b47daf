-- ===== src/Tests/Toys.antt =====
-- Small libraries that stand for llhttp, jansson and libpq, and what their documentation promises.
use crinha.Prelude.{
  ℕ, zero, suc, ◌≡◌, refl, ◌==◌, ltb, if◌then◌else◌, Bool, true, false, Option, none, some, List,
  [], ◌∷◌, codes, length, get_or, Bool-cases, inl, inr, ◌-◌,
}
use crinha.Prelude.Int.{ℤ, pos}
use crinha.Db.Libpq.{Libpq, Drains}
use crinha.Db.State.{Db}
use crinha.Controller.Jansson.{Jansson}
use crinha.HttpParser.Llhttp.{Llhttp, Run, returns, calls, on_url, on_message_complete}
use crinha.HttpParser.Parser.{is_error}
use crinha.HttpParser.Failure.{Documented, Leaves}

-- A parser whose state is its error number. A text that begins with `?` is an error; any other is
-- the URL of a complete request.
abbrev run_toy : ℕ → List ℕ → Run ℕ
run_toy (suc e) text = returns (suc e) (suc e)
run_toy zero [] = returns 0 0
run_toy zero (c ∷ text) =
    if c == b'?'
    then returns 2 2
    else calls (on_url (c ∷ text)) λ code. calls on_message_complete λ _. returns code code

abbrev pub toy_llhttp : Llhttp
toy_llhttp = record {
  P = ℕ;
  execute = run_toy;
  get_errno = λ p. p;
  resume = λ p. 0;
  resume_after_upgrade = λ p. p;
  finish = λ p. returns p 0;
  reset = λ p. 0;
  method = λ p. 3;
  is_closed = λ p. false;
  start = 0;
}

toy_errno : (p : ℕ) (text : List ℕ) → Leaves (λ q status. q ≡ status) (run_toy p text)
toy_errno (suc e) text = refl
toy_errno zero [] = refl
toy_errno zero (c ∷ text) = elim (Bool-cases (c == b'?')) [
  | inl y ↦ rw y refl
  | inr n ↦ rw n (λ code _. refl)
]

toy_failed :
    (p : ℕ) (text : List ℕ)
    → is_error toy_llhttp p ≡ true
    → Leaves (λ q status. status ≡ p) (run_toy p text)
toy_failed (suc e) text h = refl
toy_failed zero text h = absurd (cc)

pub toy_llhttp-Documented : Documented toy_llhttp
toy_llhttp-Documented = record {
  execute_errno = toy_errno;
  execute_failed = toy_failed;
  finish_failed = λ p h. refl;
}

-- A body is a text of one byte: `1` for an object with all fields, `0` for one without `tipo`, `2` for
-- one whose amount is a string.
pub data Toy : Type 0 where
  toy_text : List ℕ → Toy
  toy_number : ℤ → Toy
  toy_body : ℕ → Toy
  toy_packed : Toy
  toy_array : List (List ℕ) → Toy

-- The keys have different lengths.
abbrev toy_field : ℕ → ℕ → Option Toy
toy_field kind key =
    if key == 5
    then (if kind == 2 then some (toy_text (codes "100")) else some (toy_number (pos 100)))
    else if key == 4
    then (if kind == 0 then none else some (toy_text (codes "d")))
    else if key == 9
    then some (toy_text (codes "descricao"))
    else none

abbrev get_toy : Option Toy → List ℕ → Option Toy
get_toy (some (toy_body kind)) key = toy_field kind (length key)
get_toy _ key = none

abbrev string_toy : Option Toy → Option (List ℕ)
string_toy (some (toy_text s)) = some s
string_toy _ = none

abbrev is_number : Option Toy → Bool
is_number (some (toy_number n)) = true
is_number _ = false

abbrev number_toy : Option Toy → ℤ
number_toy (some (toy_number n)) = n
number_toy _ = pos 0

abbrev dumps_toy : Option Toy → Option (List ℕ)
dumps_toy none = none
dumps_toy (some t) = some (codes "{}")

abbrev pub toy_jansson : Jansson
toy_jansson = record {
  Json = Toy;
  loads = λ s. some (toy_body (get_or s 0 0 - b'0'));
  object_get = get_toy;
  string_value = string_toy;
  is_integer = is_number;
  integer_value = number_toy;
  pack = λ args. some toy_packed;
  array = some toy_packed;
  array_append_new = λ a x. a;
  dumps = dumps_toy;
}

-- A database whose every query has the same answer: its status and its rows, of `columns` fields. The
-- world is the list of the commands that were sent, the last one first.
pub record ToyRes : Type 0 where
  pub outcome : ℕ
  pub rows : List (List (List ℕ))
  pub columns : ℕ

abbrev outcome_of : Option ToyRes → ℕ
outcome_of none = 7
outcome_of (some r) = r.outcome

abbrev rows_of : Option ToyRes → List (List (List ℕ))
rows_of none = []
rows_of (some r) = r.rows

abbrev columns_of : Option ToyRes → ℕ
columns_of none = 0
columns_of (some r) = r.columns

abbrev pub toy_libpq : ToyRes → Libpq
toy_libpq res = record {
  Conn = Unit {0};
  Res = ToyRes;
  World = List (List ℕ);
  lib_version = pos 150000;
  server_version = λ c w. pos 150000;
  connectdb = λ text w. (some tt, w);
  finish = λ c w. w;
  status = λ c w. 0;
  reset = λ c w. w;
  exec = λ c q w. (some res, w);
  send_query = λ c q w. (true, q ∷ w);
  get_result = λ c w. (none, w);
  clear = λ r w. w;
  result_status = outcome_of;
  ntuples = λ r. length (rows_of r);
  nfields = columns_of;
  getvalue = λ r i j. get_or (get_or (rows_of r) i []) j [];
  pending = λ c w. 0;
}

pub toy_libpq-Drains : (res : ToyRes) → Drains (toy_libpq res)
toy_libpq-Drains res = record { falls = λ c w w' r h. cc }

abbrev pub toy_db : (res : ToyRes) → Db (toy_libpq res)
toy_db res = record { pool = some tt; world = []; live = 0 }

-- The same with another answer to long queries.
abbrev pub two_answers : ToyRes → ToyRes → Libpq
two_answers first second = record (toy_libpq first) {
  exec = λ c q w. (some (if ltb (length q) 60 then first else second), w);
}

-- One client, with a limit of 1000 and a balance of -500; no row; and a failed query.
abbrev pub one_client : ToyRes
one_client = record {
  outcome = 2;
  rows = (codes "7" ∷ codes "1000" ∷ codes "-500" ∷ []) ∷ [];
  columns = 3;
}

abbrev pub poor_client : ToyRes
poor_client = record {
  outcome = 2;
  rows = (codes "7" ∷ codes "1000" ∷ codes "-950" ∷ []) ∷ [];
  columns = 3;
}

abbrev pub no_client : ToyRes
no_client = record { outcome = 2; rows = []; columns = 3 }

abbrev pub failed_query : ToyRes
failed_query = record { outcome = 7; rows = []; columns = 0 }

-- Two transactions.
abbrev pub two_rows : ToyRes
two_rows = record {
  outcome = 2;
  rows =
      (codes "2" ∷ codes "7" ∷ codes "30" ∷ codes "d" ∷ codes "pao" ∷ codes "2024-02-01" ∷ [])
      ∷ (codes "1" ∷ codes "7" ∷ codes "50" ∷ codes "c" ∷ codes "pix" ∷ codes "2024-01-31" ∷ [])
      ∷ [];
  columns = 6;
}
