-- ===== src/Utils/RollingAverage.antt =====
-- src/utils/rolling_average.rs: the average of the last values, with a running sum on u64.
use foxfire_sniper.Base.{
  ℕ, zero, suc, ◌+◌, ◌-◌, ◌/◌, ◌%◌, ◌<◌, ◌≡◌, ◌==◌, if◌then◌else◌, refl, some, List, [], ◌∷◌, sum,
  set, get_elem?, replicate, length, length-set, length-replicate, Outcome, done, panic, ◌>>=◌,
  unwrap, arith, ◌∙◌,
}
use native.Mathlib.Nat.{mod-lt}
use foxfire_sniper.Types.{u64_mod}

pub record RollingAverage : Type 0 where
  pub buffer : List ℕ
  pub size : ℕ
  pub index : ℕ
  pub running_sum : ℕ

unfoldable pub new : ℕ → RollingAverage
new size = record { buffer = replicate size 0; size = size; index = 0; running_sum = 0 }

-- A write out of bounds panics, as does the remainder by a size of 0.
unfoldable pub add : ℕ → RollingAverage → Outcome RollingAverage
add value r = do
  old ← unwrap (get_elem? r.buffer r.index)
  done (record r {
    running_sum = ((r.running_sum + u64_mod - old % u64_mod) % u64_mod + value) % u64_mod;
    buffer = set r.buffer r.index value;
    index = (r.index + 1) % r.size;
  })

unfoldable pub get_average : RollingAverage → Outcome ℕ
get_average r = if r.size == 0 then panic else done (r.running_sum / r.size)

sum-set :
    (xs : List ℕ) (i v : ℕ) {old : ℕ}
    → get_elem? xs i ≡ some old
    → sum (set xs i v) + old ≡ sum xs + v
sum-set [] i v h = cc
sum-set (x ∷ xs) zero v h = ground arith
sum-set (x ∷ xs) (suc i) v h = omega (arith, sum-set xs i v h)

get_elem?_inside : (xs : List ℕ) (i : ℕ) → i < length xs → (old : ℕ) × (get_elem? xs i ≡ some old)
get_elem?_inside [] i h = absurd omega arith
get_elem?_inside (x ∷ xs) zero h = (x, refl)
get_elem?_inside (x ∷ xs) (suc i) h = get_elem?_inside xs i (omega arith)

-- The running sum is that of the buffer modulo 2^64, the buffer has the size, and the index is in it.
pub record IsTallied (r : RollingAverage) : Type 0 where
  pub tallied : r.running_sum ≡ sum r.buffer % u64_mod
  pub sized : length r.buffer ≡ r.size
  pub inside : r.index < r.size

sum-replicate : (n : ℕ) → sum (replicate n 0) ≡ 0
sum-replicate zero = refl
sum-replicate (suc n) = omega (arith, sum-replicate n)

-- A new average of a size that is not 0 is in order.
pub new-IsTallied : (size : ℕ) → 0 < size → IsTallied (new size)
unfolding new
new-IsTallied size h = record {
  tallied = ground (arith, sum-replicate size);
  sized = length-replicate size 0;
  inside = h;
}

tally_step :
    (running before after old value : ℕ)
    → running ≡ before % u64_mod
    → after + old ≡ before + value
    → ((running + u64_mod - old % u64_mod) % u64_mod + value) % u64_mod ≡ after % u64_mod
tally_step running before after old value r e = omega (arith, r, e)

-- A value is always added to an average in order, and leaves it in order: the running sum, which
-- is kept by a subtraction and an addition that wrap around, stays the sum of the buffer modulo
-- 2^64.
pub add-IsTallied :
    (value : ℕ) (r : RollingAverage)
    → IsTallied r
    → (r' : RollingAverage) × (add value r ≡ done r') × IsTallied r'
unfolding add
add-IsTallied value r t =
    let (old, e) = get_elem?_inside r.buffer r.index (omega (arith, t.sized, t.inside)) in
    let moved : (r.index + 1) % r.size < r.size =
      omega (arith, mod-lt (r.index + 1) {m = r.size} (omega (arith, t.inside))) in
    (
      record r {
        running_sum = ((r.running_sum + u64_mod - old % u64_mod) % u64_mod + value) % u64_mod;
        buffer = set r.buffer r.index value;
        index = (r.index + 1) % r.size;
      },
      rw e refl,
      record {
        tallied =
            tally_step r.running_sum (sum r.buffer) (sum (set r.buffer r.index value)) old value
              t.tallied (sum-set r.buffer r.index value e);
        sized = length-set r.buffer r.index value ∙ t.sized;
        inside = moved;
      },
    )
