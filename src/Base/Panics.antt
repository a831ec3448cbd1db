-- ===== src/Base/Panics.antt =====
-- What a call of the program comes to: it returns, or it panics (an `unwrap` on nothing, a division
-- by zero, an index out of range). Arithmetic wraps, as in the release build that README.md asks for.
use mathlib.Core.Path.{◌≡◌, refl}
use mathlib.Core.Bool.{Bool, true, false}
use mathlib.Core.Option.{Option, none, some}

pub data Outcome {ℓ} (A : Type ℓ) : Type ℓ where
  done : A → Outcome A
  panic : Outcome A

infixl 5 ◌>>=◌
abbrev pub ◌>>=◌ {ℓ κ} : {A : Type ℓ} {B : Type κ} → Outcome A → (A → Outcome B) → Outcome B
done a >>= f = f a
panic >>= f = panic

-- `Option::unwrap`
abbrev pub unwrap {ℓ} : {A : Type ℓ} → Option A → Outcome A
unwrap none = panic
unwrap (some a) = done a

pub Outcome-bind_inv {ℓ κ} :
    {A : Type ℓ} {B : Type κ} (m : Outcome A) (f : A → Outcome B) {b : B}
    → (m >>= f) ≡ done b
    → (a : A) × (m ≡ done a) × (f a ≡ done b)
Outcome-bind_inv (done a) f h = (a, refl, h)
Outcome-bind_inv panic f h = cc

pub done-injective : {A : Type 0} {a b : A} → done a ≡ done b → a ≡ b
done-injective h = cc

-- The call does not panic.
abbrev pub returns {ℓ} : {A : Type ℓ} → Outcome A → Bool
returns (done a) = true
returns panic = false

pub returns-bind {ℓ κ} :
    {A : Type ℓ} {B : Type κ} (m : Outcome A) (f : A → Outcome B)
    → returns m ≡ true
    → ((a : A) → m ≡ done a → returns (f a) ≡ true)
    → returns (m >>= f) ≡ true
returns-bind (done a) f h k = k a refl
returns-bind panic f h k = cc

-- What a call returns satisfies P.
abbrev pub Ensures {ℓ κ} : {A : Type ℓ} → (A → Type κ) → Outcome A → Type κ
Ensures P (done a) = P a
Ensures P panic = Unit

pub Ensures-bind {ℓ κ μ} :
    {A : Type ℓ} {B : Type κ} (P : B → Type μ) (m : Outcome A) (f : A → Outcome B)
    → ((a : A) → m ≡ done a → Ensures P (f a))
    → Ensures P (m >>= f)
Ensures-bind P (done a) f h = h a refl
Ensures-bind P panic f h = tt
