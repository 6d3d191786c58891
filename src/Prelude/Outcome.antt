-- ===== src/Prelude/Outcome.antt =====
-- A call that may raise: the exceptions that the program raises, and the chains of such calls.
use Prim.Native.String.{String}
use mathlib.Core.Bool.{Bool, true, false}
use mathlib.Core.Path.{◌≡◌, refl}
use mathlib.Core.Logic.{◌⊎◌, inl, inr}

-- The exception classes; the text is the message.
pub data Error : Type 0 where
  value_error : String → Error
  type_error : String → Error
  runtime_error : String → Error
  lookup_error : String → Error
  key_error : String → Error
  collision_error : String → Error
  pit_error : String → Error
  ingestion_error : String → Error
  overflow_error : Error

pub data Result {ℓ} (A : Type ℓ) : Type ℓ where
  err : Error → Result A
  ok : A → Result A

abbrev pub is_ok {ℓ} : {A : Type ℓ} → Result A → Bool
is_ok (err e) = false
is_ok (ok value) = true

-- `if test: raise error`
abbrev pub raise_if : Bool → Error → Result (Unit {0})
raise_if false e = ok tt
raise_if true e = err e

-- The next call runs on the value that the first one returns.
infixl 5 ◌>>=◌ ◌>>◌
abbrev pub ◌>>=◌ {ℓ₁ ℓ₂} : {X : Type ℓ₁} {Y : Type ℓ₂} → Result X → (X → Result Y) → Result Y
err e >>= next = err e
ok value >>= next = next value

abbrev pub ◌>>◌ {ℓ} : {Y : Type ℓ} → Result (Unit {0}) → Result Y → Result Y
check >> next = check >>= λ done. next

pub Result-cases {ℓ} :
    {A : Type ℓ} (r : Result A) → ((e : Error) × (r ≡ err e)) ⊎ ((a : A) × (r ≡ ok a))
Result-cases (err e) = inl (e, refl)
Result-cases (ok a) = inr (a, refl)

-- What a chain that returns went through.
pub bind-ok {ℓ₁ ℓ₂} :
    {X : Type ℓ₁} {Y : Type ℓ₂} (r : Result X) (next : X → Result Y) {y : Y}
    → (r >>= next) ≡ ok y
    → (x : X) × (r ≡ ok x) × (next x ≡ ok y)
bind-ok (err e) next h = cc
bind-ok (ok x) next h = (x, refl, h)

pub raise_if-ok {ℓ} :
    {Y : Type ℓ} (b : Bool) (e : Error) (next : Unit {0} → Result Y) {y : Y}
    → (raise_if b e >>= next) ≡ ok y
    → (b ≡ false) × (next tt ≡ ok y)
raise_if-ok true e next h = cc
raise_if-ok false e next h = (refl, h)
