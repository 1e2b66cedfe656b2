-- ===== src/Prelude/Results.antt =====
-- A call that returns or raises an exception, and its `do` notation.
use mathlib.Core.Path.{◌≡◌, refl}
use mathlib.Core.Logic.{◌⊎◌, inl, inr}
use mathlib.Core.Bool.{Bool, true, false}

pub data Result {ℓ} (E : Type ℓ) (A : Type ℓ) : Type ℓ where
  ok : A → Result E A
  err : E → Result E A

-- `if not test: raise e`
abbrev pub guard {ℓ} : {E : Type ℓ} → Bool → E → Result E (Unit {ℓ})
guard test e = elim test [ true ↦ ok tt | false ↦ err e ]

pub ok-injective {ℓ} : {E A : Type ℓ} {a b : A} → ◌≡◌ {A = Result E A} (ok a) (ok b) → a ≡ b
ok-injective h = cc

module _ {ℓ} {E : Type ℓ} where
  infixl 5 ◌>>◌ ◌>>=◌
  abbrev pub ◌>>=◌ : {B A : Type ℓ} → Result E A → (A → Result E B) → Result E B
  err raised >>= next = err raised
  ok value >>= next = next value

  abbrev pub ◌>>◌ : {B : Type ℓ} → Result E (Unit {ℓ}) → Result E B → Result E B
  check >> next = check >>= λ _. next

-- A successful chain has a successful first step.
pub chain-ok {ℓ} :
    {E A B : Type ℓ} (first : Result E A) (next : A → Result E B) {y : B}
    → (first >>= next) ≡ ok y
    → (x : A) × (first ≡ ok x) × (next x ≡ ok y)
chain-ok (err raised) next h = cc
chain-ok (ok x) next h = (x, refl, h)

-- A chain that fails has a step that fails.
pub chain-err {ℓ} :
    {E A B : Type ℓ} (first : Result E A) (next : A → Result E B) {e : E}
    → (first >>= next) ≡ err e
    → (first ≡ err e) ⊎ ((x : A) × (first ≡ ok x) × (next x ≡ err e))
chain-err (err raised) next h = inl cc
chain-err (ok x) next h = inr (x, refl, h)
