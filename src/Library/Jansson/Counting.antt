-- ===== src/Library/Jansson/Counting.antt =====
-- include/jansson.h: references that are taken and given back.
use crinha.Prelude.{
  ℕ, zero, suc, ◌+◌, ◌-◌, ◌<◌, ◌≡◌, ap, ◌∙◌, some, [], ◌∷◌, get_elem?, set, get_elem?-set_self,
  arith, ok, length,
}
use crinha.Library.Jansson.Value.{JsonT, Heap}
use crinha.Library.Jansson.Reference.{Calls, json_incref, json_decref, forever, with_count}

set-set_self : (h : Heap) (p : ℕ) (v w : JsonT) → get_elem? h p ≡ some v → set (set h p w) p v ≡ h
set-set_self [] p v w e = cc
set-set_self (x ∷ h) zero v w e = cc
set-set_self (x ∷ h) (suc p) v w e = ap (λ t. x ∷ t) (set-set_self h p v w e)

decref_cell :
    (calls : Calls) (h : Heap) (p n : ℕ) (w : JsonT)
    → get_elem? h p ≡ some w
    → w.refcount ≡ suc (suc n)
    → suc (suc n) < forever
    → json_decref calls (some p) h ≡ ok (set h p (with_count w (suc n)))
unfolding json_decref
decref_cell calls h p n w e r high = rw (e, json_decref) (rw r (ground arith))

get_elem?-lt-length : (h : Heap) (p : ℕ) (v : JsonT) → get_elem? h p ≡ some v → p < length h
get_elem?-lt-length [] p v e = cc
get_elem?-lt-length (x ∷ h) zero v e = omega arith
get_elem?-lt-length (x ∷ h) (suc p) v e = omega (arith, get_elem?-lt-length h p v e)

-- A value whose count is neither 0 nor the greatest is left as it was, and is not freed, if a reference
-- to it is taken and given back.
pub json_decref-json_incref :
    (calls : Calls) (h : Heap) (p : ℕ) (v : JsonT)
    → get_elem? h p ≡ some v
    → 0 < v.refcount
    → v.refcount + 1 < forever
    → (h' : Heap) × (json_incref (some p) h ≡ ok h') × (json_decref calls (some p) h' ≡ ok h)
unfolding json_incref json_decref
json_decref-json_incref calls h p v e low high =
    let w = with_count v (v.refcount + 1) in
    let n : ℕ = v.refcount - 1 in
    let same : with_count w (suc n) ≡ v = ap (with_count v) (omega arith) in
    (
      set h p w,
      ground (arith, e),
      decref_cell calls (set h p w) p n w (get_elem?-set_self h p w (get_elem?-lt-length h p v e))
            (omega arith) (omega arith)
          ∙ ap (λ x. ok (set (set h p w) p x)) same
          ∙ ap ok (set-set_self h p v w e),
    )
