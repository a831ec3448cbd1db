-- ===== src/Manager/Identifiers.antt =====
-- src/utils/crypto.rs, and the order of identifiers. An i32 is the number below 2^32 of its bits.
use foxfire_sniper.Base.{
  ℕ, ◌-◌, ◌%◌, ◌≤◌, ◌≡◌, Bool, true, false, ◌||◌, ◌&&◌, List, [], ◌∷◌, ltb, leb, ◌==◌,
  if◌then◌else◌, contains, refl, ◌↔◌, arith,
}
use foxfire_sniper.Types.{u32_mod}

abbrev pub StrategyId : Type 0
StrategyId = ℕ

abbrev pub i32_sign : ℕ
i32_sign = 0x80000000

-- `(hash as i32).abs()`: the absolute value of the least i32 is itself.
unfoldable pub hash_i32_to_i32 : (ℕ → ℕ) → ℕ → StrategyId
hash_i32_to_i32 default_hasher value =
    let low = default_hasher value % u32_mod in if ltb low i32_sign then low else u32_mod - low

-- `Vec::sort` and `==` on vectors of identifiers.
abbrev insert_sorted : ℕ → List ℕ → List ℕ
insert_sorted x [] = x ∷ []
insert_sorted x (y ∷ ys) = let rest = insert_sorted x ys in if leb x y then x ∷ y ∷ ys else y ∷ rest

unfoldable pub sort : List ℕ → List ℕ
sort [] = []
sort (x ∷ xs) = insert_sorted x (sort xs)

abbrev pub same_ids : List ℕ → List ℕ → Bool
same_ids [] [] = true
same_ids [] (_ ∷ _) = false
same_ids (_ ∷ _) [] = false
same_ids (x ∷ xs) (y ∷ ys) = (x == y) && same_ids xs ys

-- A hashed identifier is not above the number of the least i32, so it is not negative unless the
-- hash ends in exactly the bits of that number, where it is the least i32.
pub hash_i32_to_i32-bound :
    (default_hasher : ℕ → ℕ) (value : ℕ)
    → (hash_i32_to_i32 default_hasher value ≤ i32_sign)
      × ((hash_i32_to_i32 default_hasher value ≡ i32_sign)
          ↔ (default_hasher value % u32_mod ≡ i32_sign))
unfolding hash_i32_to_i32
hash_i32_to_i32-bound default_hasher value = ground arith

contains-insert_sorted :
    (k x : ℕ) (ys : List ℕ) → contains k (insert_sorted x ys) ≡ ((x == k) || contains k ys)
contains-insert_sorted k x [] = refl
contains-insert_sorted k x (y ∷ ys) = ground (arith, contains-insert_sorted k x ys)

pub contains-sort : (k : ℕ) (xs : List ℕ) → contains k (sort xs) ≡ contains k xs
unfolding sort
contains-sort k [] = refl
contains-sort k (x ∷ xs) = ground (arith, contains-insert_sorted k x (sort xs), contains-sort k xs)

pub same_ids-contains :
    (k : ℕ) (xs ys : List ℕ) → same_ids xs ys ≡ true → contains k xs ≡ contains k ys
same_ids-contains k [] [] h = refl
same_ids-contains k [] (y ∷ ys) h = ground arith
same_ids-contains k (x ∷ xs) [] h = ground arith
same_ids-contains k (x ∷ xs) (y ∷ ys) h = ground (arith, same_ids-contains k xs ys)
