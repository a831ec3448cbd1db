-- ===== src/Volume/Batches.antt =====
-- `chunks(MAX_TRANSFERS_IN_ONE_TX)` of src/strategies/volume_strategy/strategy_state_machine.rs.
use foxfire_sniper.Base.{
  ℕ, zero, suc, ◌≤◌, ◌<◌, ◌≡◌, refl, List, [], ◌∷◌, ◌++◌, length, take, drop, arith, ap, ◌∙◌,
}

module _ {A : Type 0} where
  abbrev pub concat : List (List A) → List A
  concat [] = []
  concat (b ∷ bs) = b ++ concat bs

  -- `fuel` bounds the number of chunks; the length of the list is enough. `n` counts from 1.
  abbrev pub chunks_from : ℕ → ℕ → List A → List (List A)
  chunks_from zero n xs = []
  chunks_from (suc fuel) n [] = []
  chunks_from (suc fuel) n (x ∷ xs) = (x ∷ take n xs) ∷ chunks_from fuel n (drop n xs)

  -- Chunks of `suc n`.
  unfoldable pub chunks : ℕ → List A → List (List A)
  chunks n xs = chunks_from (length xs) n xs

  take-append-drop : (n : ℕ) (xs : List A) → take n xs ++ drop n xs ≡ xs
  take-append-drop zero xs = refl
  take-append-drop (suc n) [] = refl
  take-append-drop (suc n) (x ∷ xs) = ap (◌∷◌ x) (take-append-drop n xs)

  length-drop_le : (n : ℕ) (xs : List A) → length (drop n xs) ≤ length xs
  length-drop_le zero xs = omega arith
  length-drop_le (suc n) [] = omega arith
  length-drop_le (suc n) (x ∷ xs) = omega (arith, length-drop_le n xs)

  length-take_le : (n : ℕ) (xs : List A) → length (take n xs) ≤ n
  length-take_le zero xs = omega arith
  length-take_le (suc n) [] = omega arith
  length-take_le (suc n) (x ∷ xs) = omega (arith, length-take_le n xs)

  concat-chunks_from :
      (fuel n : ℕ) (xs : List A) → length xs ≤ fuel → concat (chunks_from fuel n xs) ≡ xs
  concat-chunks_from zero n [] h = refl
  concat-chunks_from zero n (x ∷ xs) h = absurd omega arith
  concat-chunks_from (suc fuel) n [] h = refl
  concat-chunks_from (suc fuel) n (x ∷ xs) h =
      ap (λ ys. x ∷ (take n xs ++ ys))
        (concat-chunks_from fuel n (drop n xs) (omega (arith, length-drop_le n xs)))
      ∙ ap (◌∷◌ x) (take-append-drop n xs)

  -- The chunks of a list are, one after the other, the list: no transfer is lost or doubled by the
  -- division, and the order is kept.
  pub concat-chunks : (n : ℕ) (xs : List A) → concat (chunks n xs) ≡ xs
  unfolding chunks
  concat-chunks n xs = concat-chunks_from (length xs) n xs (omega arith)

  -- Every chunk has at least one element and at most `m`.
  abbrev pub AllWithin : ℕ → List (List A) → Type 0
  AllWithin m [] = Unit
  AllWithin m (b ∷ bs) = (0 < length b) × (length b ≤ m) × AllWithin m bs

  chunks_from-AllWithin : (fuel n : ℕ) (xs : List A) → AllWithin (suc n) (chunks_from fuel n xs)
  chunks_from-AllWithin zero n xs = tt
  chunks_from-AllWithin (suc fuel) n [] = tt
  chunks_from-AllWithin (suc fuel) n (x ∷ xs) =
      (omega arith, omega (arith, length-take_le n xs), chunks_from-AllWithin fuel n (drop n xs))

  -- No chunk is empty, and none is longer than the limit.
  pub chunks-AllWithin : (n : ℕ) (xs : List A) → AllWithin (suc n) (chunks n xs)
  unfolding chunks
  chunks-AllWithin n xs = chunks_from-AllWithin (length xs) n xs
