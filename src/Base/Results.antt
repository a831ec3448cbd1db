-- ===== src/Base/Results.antt =====
-- `Result<A, E>` of the program, and the chain of `?`.
use mathlib.Core.Path.{◌≡◌}
use mathlib.Core.Option.{Option, none, some}

pub data Result {ℓ κ} (E : Type ℓ) (A : Type κ) : Type (ℓ ⊔ κ) where
  ok : A → Result E A
  err : E → Result E A

infixl 5 ◌>>=◌
abbrev pub ◌>>=◌ {ℓ κ μ} :
    {E : Type ℓ} {A : Type κ} {B : Type μ} → Result E A → (A → Result E B) → Result E B
ok a >>= f = f a
err e >>= f = err e

-- `Option::ok_or`
abbrev pub ok_or {ℓ κ} : {E : Type ℓ} {A : Type κ} → Option A → E → Result E A
ok_or none e = err e
ok_or (some a) e = ok a

-- `ok` at a known type of errors.
abbrev pub succeeded {ℓ κ} : {E : Type ℓ} {A : Type κ} → A → Result E A
succeeded a = ok a

pub ok-injective :
    (E : Type 0) {A : Type 0} {a b : A} → succeeded {E = E} a ≡ succeeded {E = E} b → a ≡ b
ok-injective E h = cc
