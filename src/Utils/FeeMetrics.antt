-- ===== src/Utils/FeeMetrics.antt =====
-- src/utils/fee_metrics.rs: the greatest fees seen so far and a rolling average of the fees, whose
-- code repeats that of src/utils/rolling_average.rs. src/utils/percentile.rs repeats the first.
use foxfire_sniper.Base.{
  ℕ, suc, ◌≤◌, ◌<◌, ◌≡◌, refl, Bool, true, ◌&&◌, Option, none, some, List, [], ◌∷◌, ltb, ◌==◌,
  if◌then◌else◌, length, get_elem?, contains, Outcome, done, ◌>>=◌, arith,
}
use foxfire_sniper.Utils.RollingAverage
use foxfire_sniper.Utils.RollingAverage.{RollingAverage}

-- A `BTreeSet<u64>` as the list of its elements from the least on.
pub record Percentile : Type 0 where
  pub values : List ℕ
  pub capacity : ℕ

-- `BTreeSet::insert`
abbrev pub insert : ℕ → List ℕ → List ℕ
insert v [] = v ∷ []
insert v (x ∷ xs) =
    let rest = insert v xs in if v == x then x ∷ xs else if ltb v x then v ∷ x ∷ xs else x ∷ rest

-- `remove` of the first element.
abbrev without_min : List ℕ → List ℕ
without_min [] = []
without_min (_ ∷ xs) = xs

abbrev pub room_in : Percentile → List ℕ
room_in p = if length p.values == p.capacity then without_min p.values else p.values

unfoldable pub add : ℕ → Percentile → Percentile
add value p = record p { values = insert value (room_in p) }

-- `rank percentile len` is `((percentile / 100.0) * (len as f64 - 1.0)).round() as usize`.
unfoldable pub get_percentile : {F : Type 0} → (F → ℕ → ℕ) → F → Percentile → Option ℕ
get_percentile rank percentile p =
    if length p.values == 0 then none else get_elem? p.values (rank percentile (length p.values))

pub record FeeMetrics : Type 0 where
  pub rolling_average : RollingAverage
  pub percentile : Percentile

unfoldable pub new : ℕ → ℕ → FeeMetrics
unfolding RollingAverage.new
new ra_size percentile_capacity = record {
  rolling_average = RollingAverage.new ra_size;
  percentile = record { values = []; capacity = percentile_capacity };
}

unfoldable pub add_fee : ℕ → FeeMetrics → Outcome FeeMetrics
unfolding add RollingAverage.add
add_fee fee m = do
  average ← RollingAverage.add fee m.rolling_average
  done (record { rolling_average = average; percentile = add fee m.percentile })

-- `get_optimal_fee` of src/config/cache.rs, with the percentile that it asks for.
unfoldable pub get_optimal_fee : {F : Type 0} → (F → ℕ → ℕ) → F → FeeMetrics → ℕ
unfolding get_percentile
get_optimal_fee rank rt_fee_percentile m =
    elim (get_percentile rank rt_fee_percentile m.percentile) [ none ↦ 0 | some fee ↦ fee ]

-- Every element is greater than the one before it, the first than the bound.
abbrev pub ascends : List ℕ → Bool
ascends [] = true
ascends (x ∷ []) = true
ascends (x ∷ y ∷ ys) = ltb x y && ascends (y ∷ ys)

-- The values ascend and there is room for at most the capacity.
abbrev pub IsOrdered : Percentile → Type 0
IsOrdered p = (ascends p.values ≡ true) × (length p.values ≤ p.capacity)

insert-ascends : (v : ℕ) (xs : List ℕ) → ascends xs ≡ true → ascends (insert v xs) ≡ true
insert-ascends v [] h = refl
insert-ascends v (x ∷ []) h = ground arith
insert-ascends v (x ∷ y ∷ ys) h = ground (arith, insert-ascends v (y ∷ ys))

length-insert : (v : ℕ) (xs : List ℕ) → length (insert v xs) ≤ suc (length xs)
length-insert v [] = omega arith
length-insert v (x ∷ xs) = ground (arith, length-insert v xs)

contains-insert : (v : ℕ) (xs : List ℕ) → contains v (insert v xs) ≡ true
contains-insert v [] = ground arith
contains-insert v (x ∷ xs) = ground (arith, contains-insert v xs)

without_min-ascends : (xs : List ℕ) → ascends xs ≡ true → ascends (without_min xs) ≡ true
without_min-ascends [] h = refl
without_min-ascends (x ∷ []) h = refl
without_min-ascends (x ∷ y ∷ ys) h = ground arith

length-without_min : (x : ℕ) (xs : List ℕ) → suc (length (without_min (x ∷ xs))) ≡ length (x ∷ xs)
length-without_min x xs = refl

room_in-lem :
    (p : Percentile)
    → 0 < p.capacity
    → IsOrdered p
    → (ascends (room_in p) ≡ true) × (length (room_in p) < p.capacity)
room_in-lem p room (up, within) = (ground (arith, without_min-ascends p.values), ground arith)

-- Adding a fee keeps the set in order and within its capacity, if that is not 0, and the fee is then
-- in the set.
pub add-IsOrdered :
    (v : ℕ) (p : Percentile)
    → 0 < p.capacity
    → IsOrdered p
    → IsOrdered (add v p) × (contains v (add v p).values ≡ true)
unfolding add
add-IsOrdered v p room o =
    let (up, within) = room_in-lem p room o in
    (
      (insert-ascends v (room_in p) up, omega (arith, length-insert v (room_in p))),
      contains-insert v (room_in p),
    )
