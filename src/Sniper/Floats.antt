-- ===== src/Sniper/Floats.antt =====
-- The prices of the sniper are f64. Their type and operations are a parameter: the theorems hold for
-- every choice, so they rest on no law of rounding.
use foxfire_sniper.Base.{ℕ, Bool}

pub record Floats : Type 1 where
  pub F : Type 0
  pub lt : F → F → Bool
  pub mul : F → F → F
  pub add : F → F → F
  pub sub : F → F → F
  pub div : F → F → F
  -- `n as f64`, or a literal, such as 100.0.
  pub lit : ℕ → F
  -- `x as u64`
  pub to_u64 : F → ℕ
