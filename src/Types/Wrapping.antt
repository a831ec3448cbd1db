-- ===== src/Types/Wrapping.antt =====
-- The arithmetic of `u64` in a release build.
use Prim.Native.Nat.{ℕ, ◌+◌, ◌-◌, ◌%◌}
use foxfire_sniper.Types.Constants.{u64_mod}

abbrev pub wrapping_add : ℕ → ℕ → ℕ
wrapping_add a b = (a + b) % u64_mod

-- `as u64` subtraction wraps around.
abbrev pub wrapping_sub : ℕ → ℕ → ℕ
wrapping_sub a b = (a + u64_mod - b) % u64_mod
