-- ===== src/Types/Signed.antt =====
-- Signed numbers (i32, i64), and what a cast to an unsigned width makes of them.
use Prim.Native.Nat.{ℕ, suc, ◌-◌}
use foxfire_sniper.Types.Constants.{u64_mod, u128_mod}

-- `negsuc n` is -(n + 1).
pub data ℤ : Type 0 where
  pos : ℕ → ℤ
  negsuc : ℕ → ℤ

-- `x as u64`, of an x that an i64 holds.
abbrev pub as_u64 : ℤ → ℕ
as_u64 (pos n) = n
as_u64 (negsuc n) = u64_mod - suc n

-- `x as u128`
abbrev pub as_u128 : ℤ → ℕ
as_u128 (pos n) = n
as_u128 (negsuc n) = u128_mod - suc n
