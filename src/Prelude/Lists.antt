-- ===== src/Prelude/Lists.antt =====
-- Lists measured by native numbers, and the predicates and searches that the components share.
use Prim.Native.Nat.{ℕ, zero, suc, ◌≤◌}
use mathlib.Core.Path.{◌≡◌, refl}
use mathlib.Core.Bool.{Bool, true, false, not, ◌&&◌, ◌||◌}
use mathlib.Core.List.{List, [], ◌∷◌, ◌++◌}
use mathlib.Core.Option.{Option, none, some}
use native.Mathlib.Omega.{arith}
use mathlib.Core.Logic.{◌⊎◌, inl, inr}
use tabdeal_futures_signal_b.Prelude.Tests.{Bool-cases, if◌then◌else◌}

module _ {ℓ} {A : Type ℓ} where
  abbrev pub length : List A → ℕ
  length [] = 0
  length (x ∷ xs) = suc (length xs)

  abbrev pub take : ℕ → List A → List A
  take zero xs = []
  take (suc n) [] = []
  take (suc n) (x ∷ xs) = x ∷ take n xs

  -- `any(test(x) for x in xs)` and `all(...)`.
  abbrev pub any : (A → Bool) → List A → Bool
  any test [] = false
  any test (x ∷ xs) = test x || any test xs

  abbrev pub all : (A → Bool) → List A → Bool
  all test [] = true
  all test (x ∷ xs) = test x && all test xs

  -- The elements that pass, in order.
  abbrev pub keep : (A → Bool) → List A → List A
  keep test [] = []
  keep test (x ∷ xs) = if test x then x ∷ keep test xs else keep test xs

  -- The first element that passes.
  abbrev pub first : (A → Bool) → List A → Option A
  first test [] = none
  first test (x ∷ xs) = if test x then some x else first test xs

  pub length-take_le : (n : ℕ) (xs : List A) → length (take n xs) ≤ n
  length-take_le zero xs = omega arith
  length-take_le (suc n) [] = omega arith
  length-take_le (suc n) (x ∷ xs) = omega (arith, length-take_le n xs)

-- A predicate of every element, by recursion: the tactics read and build it.
abbrev pub All {ℓ κ} : {A : Type ℓ} → (A → Type κ) → List A → Type κ
All P [] = Unit
All P (x ∷ xs) = P x × All P xs

-- "Some element is": the witness by position.
pub data In {ℓ} {A : Type ℓ} (a : A) : List A → Type ℓ where
  here : {xs : List A} → In a (a ∷ xs)
  there : {x : A} {xs : List A} → In a xs → In a (x ∷ xs)

pub In-cons {ℓ} : {A : Type ℓ} {x y : A} {xs : List A} → In x (y ∷ xs) → (x ≡ y) ⊎ In x xs
In-cons here = inl refl
In-cons (there i) = inr i

pub In-append {ℓ} : {A : Type ℓ} {x : A} (xs ys : List A) → In x xs → In x (xs ++ ys)
In-append [] ys i = elim i [ ]
In-append (y ∷ xs) ys here = here
In-append (y ∷ xs) ys (there i) = there (In-append xs ys i)

pub In-first {ℓ} :
    {A : Type ℓ} (test : A → Bool) (xs : List A) {a : A}
    → first test xs ≡ some a
    → In a xs × (test a ≡ true)
In-first test [] h = cc
In-first test (x ∷ xs) {a} h = elim (Bool-cases (test x)) [
  | inl e ↦ let same : x ≡ a = ground arith in (rw (← same) here, rw (← same) e)
  | inr e ↦ let (i, t) = In-first test xs {a = a} (ground arith) in (there i, t)
]

module _ {ℓ κ} {A : Type ℓ} (P : A → Type κ) where
  pub All-In : {a : A} (xs : List A) → In a xs → All P xs → P a
  All-In [] i h = elim i [ ]
  All-In (x ∷ xs) here h = h.0
  All-In (x ∷ xs) (there i) h = All-In xs i h.1

  pub All-append : (xs ys : List A) → All P xs → All P ys → All P (xs ++ ys)
  All-append [] ys p q = q
  All-append (x ∷ xs) ys p q = (p.0, All-append xs ys p.1 q)

  pub All-take : (n : ℕ) (xs : List A) → All P xs → All P (take n xs)
  All-take zero xs p = tt
  All-take (suc n) [] p = tt
  All-take (suc n) (x ∷ xs) p = (p.0, All-take n xs p.1)

-- An empty concatenation has empty parts.
pub append_is_nil {ℓ} : {A : Type ℓ} (xs ys : List A) → xs ++ ys ≡ [] → (xs ≡ []) × (ys ≡ [])
append_is_nil [] ys h = (refl, h)
append_is_nil (x ∷ xs) ys h = cc

-- What `keep` keeps, and what holds of all of it.
pub In-keep {ℓ} :
    {A : Type ℓ} (p : A → Bool) (xs : List A) {a : A} → In a (keep p xs) → In a xs × (p a ≡ true)
In-keep p [] i = elim i [ ]
In-keep p (x ∷ xs) {a} i = elim (Bool-cases (p x)) [
  | inl e ↦ elim (In-cons (rw e at i)) [
    | inl same ↦ (rw same here, rw same e)
    | inr j ↦ let (k, t) = In-keep p xs j in (there k, t)
  ]
  | inr e ↦ let (j, t) = In-keep p xs (rw e at i) in (there j, t)
]

module _ {ℓ κ} {A : Type ℓ} (P : A → Type κ) where
  pub All-keep : (p : A → Bool) (xs : List A) → All P (keep p xs) → All (λ x. p x ≡ true → P x) xs
  All-keep p [] h = tt
  All-keep p (x ∷ xs) h = elim (Bool-cases (p x)) [
    | inl e ↦ let (here_, rest) = rw e at h in (λ t. here_, All-keep p xs rest)
    | inr e ↦ (λ t. absurd (let no : false ≡ true = rw e at t in cc), All-keep p xs (rw e at h))
  ]

  pub All-weaken {ι} : (Q : A → Type ι) (xs : List A) → ((a : A) → P a → Q a) → All P xs → All Q xs
  All-weaken Q [] f h = tt
  All-weaken Q (x ∷ xs) f h = (f x h.0, All-weaken Q xs f h.1)

-- No element fails the test.
pub none_refused {ℓ} :
    {A : Type ℓ} (p : A → Bool) (xs : List A)
    → any (λ x. not (p x)) xs ≡ false
    → All (λ x. p x ≡ true) xs
none_refused p [] h = tt
none_refused p (x ∷ xs) h = (ground arith, none_refused p xs (ground arith))
