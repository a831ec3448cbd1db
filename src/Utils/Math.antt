-- ===== src/Utils/Math.antt =====
-- src/utils/math.rs: a total divided among agents at random. `shares n total` is what the Dirichlet
-- distribution of the crate rand_distr answers for `n` agents, each proportion times the total and
-- rounded to a u64.
use foxfire_sniper.Base.{
  ℕ, suc, ◌+◌, ◌*◌, ◌-◌, ◌%◌, ◌≤◌, ◌<◌, ◌≡◌, ltb, ◌==◌, if◌then◌else◌, refl, ap, List, [], ◌∷◌, sum,
  replicate, map, length, Outcome, done, panic, arith, Bool-cases, inl, inr, ◌∙◌,
}
use foxfire_sniper.Types.{u64_mod}

-- `amounts[0] += difference` or `-= difference.abs()`: the difference of the two totals as i64 is
-- positive where its 64 bits, `d`, are below 2^63.
unfoldable pub correct : ℕ → ℕ → ℕ
correct d amount =
    if ltb d 0x8000000000000000
    then (amount + d) % u64_mod
    else (amount + u64_mod - (u64_mod - d)) % u64_mod

-- The adjustment for rounding errors; the totals are sums on u64.
unfoldable pub adjust : ℕ → List ℕ → Outcome (List ℕ)
unfolding correct
adjust alpha [] = if 0 == alpha then done [] else panic
adjust alpha (amount ∷ amounts) =
    let total = sum (amount ∷ amounts) % u64_mod in
    if total == alpha
    then done (amount ∷ amounts)
    else done (correct ((alpha + u64_mod - total) % u64_mod) amount ∷ amounts)

adjust-sum :
    (alpha : ℕ) (xs : List ℕ)
    → alpha < u64_mod
    → 0 < length xs
    → (ys : List ℕ) × (adjust alpha xs ≡ done ys)
      × (sum ys % u64_mod ≡ alpha)
      × (length ys ≡ length xs)
unfolding adjust
adjust-sum alpha [] l h = absurd omega arith
adjust-sum alpha (x ∷ xs) l h =
    let total = sum (x ∷ xs) % u64_mod in
    let d = (alpha + u64_mod - total) % u64_mod in
    elim (Bool-cases (total == alpha)) [
      | inl e ↦ (x ∷ xs, rw e refl, ground (arith, e), refl)
      | inr e ↦ (correct d x ∷ xs, rw e refl, ground (arith, e), refl)
    ]

length-map : (f : ℕ → ℕ) (xs : List ℕ) → length (map f xs) ≡ length xs
length-map f [] = refl
length-map f (x ∷ xs) = ap suc (length-map f xs)

module _ (shares : ℕ → ℕ → List ℕ) where
  unfoldable pub get_dirichlet_distributed_amount : ℕ → ℕ → Outcome (List ℕ)
  unfolding adjust
  get_dirichlet_distributed_amount alpha n =
      if n == 0 then done [] else adjust alpha (shares n alpha)

  unfoldable pub get_dirichlet_distributed_with_min_amount : ℕ → ℕ → ℕ → Outcome (List ℕ)
  unfolding adjust
  get_dirichlet_distributed_with_min_amount alpha n min_amount =
      let min_required_total = n * min_amount % u64_mod in
      if n == 0
      then done []
      else if n == 1
      then done (alpha ∷ [])
      else if ltb alpha min_required_total
      then done (replicate n min_amount)
      else adjust alpha
          (map (λ share. (share + min_amount) % u64_mod) (shares n (alpha - min_required_total)))

  -- Where the distribution answers one share for each of the agents, and there is an agent, the
  -- total is divided: one amount for each agent, and the amounts add up to the total modulo 2^64.
  pub get_dirichlet_distributed_amount-sum :
      (alpha n : ℕ)
      → ((m total : ℕ) → length (shares m total) ≡ m)
      → alpha < u64_mod
      → 0 < n
      → (ys : List ℕ) × (get_dirichlet_distributed_amount alpha n ≡ done ys)
        × (sum ys % u64_mod ≡ alpha)
        × (length ys ≡ n)
  unfolding get_dirichlet_distributed_amount
  get_dirichlet_distributed_amount-sum alpha n each l h =
      let (ys, e, s, k) = adjust-sum alpha (shares n alpha) l (omega (arith, each n alpha)) in
      (ys, ground (arith, e, h), s, k ∙ each n alpha)

  -- Where the distribution answers one share for each of the agents, there are at least two agents
  -- and the total is enough for the least amount of each, the total is divided: one amount for each
  -- agent, and the amounts add up to the total modulo 2^64.
  pub get_dirichlet_distributed_with_min_amount-sum :
      (alpha n min_amount : ℕ)
      → ((m total : ℕ) → length (shares m total) ≡ m)
      → alpha < u64_mod
      → 1 < n
      → n * min_amount ≤ alpha
      → (ys : List ℕ) × (get_dirichlet_distributed_with_min_amount alpha n min_amount ≡ done ys)
        × (sum ys % u64_mod ≡ alpha)
        × (length ys ≡ n)
  unfolding get_dirichlet_distributed_with_min_amount
  get_dirichlet_distributed_with_min_amount-sum alpha n min_amount each l h enough =
      let least = n * min_amount % u64_mod in
      let xs = map (λ share. (share + min_amount) % u64_mod) (shares n (alpha - least)) in
      let size =
        length-map (λ share. (share + min_amount) % u64_mod) (shares n (alpha - least))
        ∙ each n (alpha - least) in
      let (ys, e, s, k) = adjust-sum alpha xs l (omega (arith, size, h)) in
      (ys, ground (arith, e, h, enough), s, k ∙ size)
