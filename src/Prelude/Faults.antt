-- ===== src/Prelude/Faults.antt =====
-- A C computation that may stop the process: `exit`, or an access that C leaves undefined.
use crinha.Prelude.Names.{◌≡◌, refl, ap, ◌⊎◌, inl, inr}

-- `null_pointer`: a read or a call through NULL. `out_of_bounds`: an access past the end of an
-- array. `exit_failure`: `exit(EXIT_FAILURE)`. `out_of_fuel` is no
-- behaviour of the program: a loop of the model was given too few rounds.
pub data Fault : Type 0 where
  null_pointer out_of_bounds exit_failure out_of_fuel : Fault

pub data Exec {ℓ} (A : Type ℓ) : Type ℓ where
  ok : A → Exec A
  fault : Fault → Exec A

infixl 5 ◌>>=◌ ◌>>◌
abbrev pub ◌>>=◌ {ℓ κ} : {A : Type ℓ} {B : Type κ} → Exec A → (A → Exec B) → Exec B
m >>= next = elim m [ ok a ↦ next a | fault e ↦ fault e ]

abbrev pub ◌>>◌ {ℓ κ} : {A : Type ℓ} {B : Type κ} → Exec A → Exec B → Exec B
first >> second = first >>= λ _. second

-- If two parts end, so does the first, and the second on its value.
pub >>=-eq-ok {ℓ κ} :
    {A : Type ℓ} {B : Type κ} (first : Exec A) (next : A → Exec B) {out : B}
    → (first >>= next) ≡ ok out
    → (value : A) × (first ≡ ok value) × (next value ≡ ok out)
>>=-eq-ok (fault e) next ended = cc
>>=-eq-ok (ok value) next ended = (value, refl, ended)

-- Whether a computation ends without a fault.
abbrev pub IsOk {ℓ} : {A : Type ℓ} → Exec A → Type ℓ
IsOk {A} m = (a : A) × (m ≡ ok a)

pub Exec-cases {ℓ} :
    {A : Type ℓ} (m : Exec A) → ((a : A) × (m ≡ ok a)) ⊎ ((f : Fault) × (m ≡ fault f))
Exec-cases (ok a) = inl (a, refl)
Exec-cases (fault f) = inr (f, refl)

abbrev pub ok_or {ℓ} : {A : Type ℓ} → A → Exec A → A
ok_or d (ok a) = a
ok_or d (fault f) = d

pub ok_injective {ℓ} : {A : Type ℓ} {a b : A} → ok a ≡ ok b → a ≡ b
ok_injective {a} h = ap (ok_or a) h
