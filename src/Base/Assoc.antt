-- ===== src/Base/Assoc.antt =====
-- A hash map as an association list over identifiers: at most the first entry of a key counts.
use Prim.Native.Nat.{ℕ}
use mathlib.Core.Path.{◌≡◌}
use mathlib.Core.Bool.{Bool, true, false}
use mathlib.Core.List.{List, [], ◌∷◌}
use mathlib.Core.Option.{Option, none, some}
use native.Mathlib.Omega.{arith}
use foxfire_sniper.Base.Tests.{◌==◌, if◌then◌else◌}

module _ {ℓ} {V : Type ℓ} where
  abbrev pub find : ℕ → List (ℕ × V) → Option V
  find k [] = none
  find k ((j, v) ∷ m) = if j == k then some v else find k m

  abbrev pub has_key : ℕ → List (ℕ × V) → Bool
  has_key k m = elim (find k m) [ none ↦ false | some _ ↦ true ]

  abbrev pub erase_key : ℕ → List (ℕ × V) → List (ℕ × V)
  erase_key k [] = []
  erase_key k ((j, v) ∷ m) = let rest = erase_key k m in if j == k then rest else (j, v) ∷ rest

  -- `HashMap::insert`: the old entry of the key is replaced.
  abbrev pub put_key : ℕ → V → List (ℕ × V) → List (ℕ × V)
  put_key k v m = (k, v) ∷ erase_key k m

  pub find-erase_key :
      (q k : ℕ) (m : List (ℕ × V)) → find q (erase_key k m) ≡ (if k == q then none else find q m)
  find-erase_key q k [] = ground arith
  find-erase_key q k ((j, v) ∷ m) = ground (arith, find-erase_key q k m)

  pub find-put_key :
      (q k : ℕ) (v : V) (m : List (ℕ × V))
      → find q (put_key k v m) ≡ (if k == q then some v else find q m)
  find-put_key q k v m = ground (arith, find-erase_key q k m)
