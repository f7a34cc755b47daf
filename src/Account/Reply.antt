-- ===== src/Account/Reply.antt =====
-- controller/cliente_controller.c: the answer that states a balance.
use crinha.Prelude.{
  ℕ, suc, ◌+◌, ◌≤◌, ◌≡◌, refl, some, List, [], ◌∷◌, codes, joined, length, length-append, arith, ok,
}
use crinha.Prelude.Int.{ℤ, pos, negsuc, wrap32, wrap32-IsInt32, IsInt32}
use crinha.Clib.Memory.{sprintf}
use crinha.Clib.Decimal.{decimal_ℤ}
use crinha.Clib.Decimal.RoundTrip.{decimal-length}
use crinha.Entity.{Cliente}
use crinha.Router.{crlf}
use crinha.Controller.Jansson.{Jansson, int}
use crinha.Controller.Response.{respond, http_200_json, build_json_saldo}
use crinha.Account.{saldo_text, saldo_json, saldo_pieces}

-- The text of an integer takes at most eleven bytes.
int32-length : (z : ℤ) → IsInt32 z → length (decimal_ℤ z) ≤ 11
unfolding decimal_ℤ
int32-length (pos n) h = omega (arith, decimal-length n 9 (omega arith))
int32-length (negsuc n) h = omega (arith, decimal-length (suc n) 9 (omega arith))

abbrev total : List (List ℕ) → ℕ
total [] = 0
total (p ∷ ps) = length p + total ps

length-joined : (ps : List (List ℕ)) → length (joined ps) ≡ total ps
length-joined [] = refl
length-joined (p ∷ ps) = omega (arith, length-append p (joined ps), length-joined ps)

saldo_json-length : (a b : ℤ) → IsInt32 a → IsInt32 b → length (saldo_json a b) ≤ 42
unfolding saldo_json saldo_pieces
saldo_json-length a b h k =
    omega (arith, length-joined (saldo_pieces a b), int32-length a h, int32-length b k)

answer_pieces : List ℕ → List (List ℕ)
answer_pieces body =
    codes "HTTP/1.1 200 OK"
    ∷ crlf
    ∷ codes "Content-Type: application/json; charset=utf-8"
    ∷ crlf
    ∷ codes "Content-Length: "
    ∷ decimal_ℤ (wrap32 (pos (length body)))
    ∷ crlf
    ∷ crlf
    ∷ body
    ∷ []

-- The head of the answer and a short body fit into the buffer.
http_200_json-length : (body : List ℕ) → length body ≤ 42 → length (http_200_json body) ≤ 140
unfolding http_200_json crlf answer_pieces
http_200_json-length body h = omega (
  arith,
  length-joined (answer_pieces body),
  int32-length (wrap32 (pos (length body))) (wrap32-IsInt32 (pos (length body))),
  h,
)

-- What JSON_COMPACT prints of an object with two integers, in the order in which they were packed.
pub record Prints (js : Jansson) : Type 0 where
  pub compact :
      (a b : ℤ)
      → IsInt32 a
      → IsInt32 b
      → js.dumps (js.pack ((codes "limite", int a) ∷ (codes "saldo", int b) ∷ []))
        ≡ some (saldo_json a b)

-- The answer that states a client's balance always fits into its buffer of 256 bytes: it is the head
-- with the length, and the limit and the balance as JSON, of each the low 32 bits (JSON integers are
-- printed compactly, in the order of packing).
pub respond-saldo :
    (js : Jansson) (prints : Prints js) (c : Cliente)
    → respond 256 (js.dumps (build_json_saldo js c)) ≡ ok (http_200_json (saldo_text c))
unfolding respond sprintf build_json_saldo
respond-saldo js prints c =
    let a = wrap32-IsInt32 c.limite in
    let b = wrap32-IsInt32 c.saldo in
    let short =
      http_200_json-length (saldo_text c)
        (saldo_json-length (wrap32 c.limite) (wrap32 c.saldo) a b) in
    rw (prints.compact (wrap32 c.limite) (wrap32 c.saldo) a b, respond) (ground (arith, short))
