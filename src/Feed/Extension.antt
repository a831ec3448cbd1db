-- ===== src/Feed/Extension.antt =====
-- What the swaps of a transaction do to the signatures and to the events that were there before.
use foxfire_sniper.Base.{
  ◌≡◌, refl, sym, ◌∙◌, ap, subst, ◌⊎◌, inl, inr, Option, none, some, List, [], ◌∷◌, ◌++◌, find,
  done, ◌>>=◌, Outcome-bind_inv, arith, Option-cases,
}
use foxfire_sniper.Types.{RaydiumPoolPriceUpdate}
use mathlib.Core.List.{append-nil, append_assoc}
use foxfire_sniper.Statechart.Runs.{done-injective}
use foxfire_sniper.Sniper.Floats.{Floats}
use foxfire_sniper.Feed.Transactions.{Parse, read, nothing, panics}
use foxfire_sniper.Feed.Swaps.{Swap}
use foxfire_sniper.Feed.State.{TargetPool, Libraries, FeedCache, Event}
use foxfire_sniper.Feed.Reserves.{
  tokens_to_ui_amount_with_decimals_f64, applied, apply_priced, apply_swap, apply_swaps, continued,
  apply_parsed,
}

module _ (fl : Floats) (libs : Libraries) where
  -- The call left the signatures as they were, and added events after those that it was given.
  abbrev pub IsExtended :
      FeedCache fl libs
      → List (Event fl libs)
      → FeedCache fl libs × Option (List (Event fl libs))
      → Type 0
  IsExtended c events (c', out) =
      (c'.signatures ≡ c.signatures)
      × ((out ≡ none) ⊎ ((more : List (Event fl libs)) × (out ≡ some (events ++ more))))

  apply_priced-signatures :
      (swap : Swap) (pool : TargetPool) (price : Option (RaydiumPoolPriceUpdate fl.F))
      (c : FeedCache fl libs) (result : FeedCache fl libs × Option (List (Event fl libs)))
      → apply_priced fl libs swap pool price c ≡ done result
      → result.0.signatures ≡ c.signatures
  unfolding apply_priced
  apply_priced-signatures swap pool none c result h = ground arith
  apply_priced-signatures swap pool (some before) c result h =
      let ui = tokens_to_ui_amount_with_decimals_f64 fl libs in
      let (base, _, r₁) =
        Outcome-bind_inv (ui swap.base_amount pool.base_decimals)
          (λ base.
            ui swap.quote_amount pool.quote_decimals
            >>= (λ quote. done (applied fl libs swap pool before c base quote)))
          h in
      let (quote, _, r₂) =
        Outcome-bind_inv (ui swap.quote_amount pool.quote_decimals)
          (λ quote. done (applied fl libs swap pool before c base quote)) r₁ in
      sym (ap (λ x. x.0.signatures) (done-injective r₂))

  apply_swap-signatures :
      (swap : Swap) (c : FeedCache fl libs)
      (result : FeedCache fl libs × Option (List (Event fl libs)))
      → apply_swap fl libs swap c ≡ done result
      → result.0.signatures ≡ c.signatures
  unfolding apply_swap
  apply_swap-signatures swap c result h = elim (Option-cases (find swap.pool_id c.target_pools)) [
    | inl e ↦ ground arith
    | inr (pool, e) ↦
        apply_priced-signatures swap pool (find swap.pool_id c.target_pools_prices) c result
          (ground (arith, e))
  ]

  continued-IsExtended :
      (swaps : List Swap) (c c₁ : FeedCache fl libs) (events : List (Event fl libs))
      (more : Option (List (Event fl libs)))
      (result : FeedCache fl libs × Option (List (Event fl libs)))
      → c₁.signatures ≡ c.signatures
      → ((new : List (Event fl libs))
          → apply_swaps fl libs swaps c₁ (events ++ new) ≡ done result
          → IsExtended c₁ (events ++ new) result)
      → continued fl libs (λ new. apply_swaps fl libs swaps c₁ (events ++ new)) c₁ more
        ≡ done result
      → IsExtended c events result
  continued-IsExtended swaps c c₁ events none result same later h =
      subst (IsExtended c events) (done-injective h) (same, inl refl)
  continued-IsExtended swaps c c₁ events (some new) result same later h =
      let (kept, out) = later new h in
      (
        kept ∙ same,
        elim out [
          | inl none_left ↦ inl none_left
          | inr (more, e) ↦ inr (new ++ more, e ∙ ap some (append_assoc events new more))
        ],
      )

  apply_swaps-IsExtended :
      (swaps : List Swap) (c : FeedCache fl libs) (events : List (Event fl libs))
      (result : FeedCache fl libs × Option (List (Event fl libs)))
      → apply_swaps fl libs swaps c events ≡ done result
      → IsExtended c events result
  unfolding apply_swaps
  apply_swaps-IsExtended [] c events result h =
      subst (IsExtended c events) (done-injective h)
        (refl, inr ([], ap some (sym (append-nil events))))
  apply_swaps-IsExtended (swap ∷ swaps) c events result h =
      let ((c₁, more), e, rest) = Outcome-bind_inv (apply_swap fl libs swap c) _ h in
      continued-IsExtended swaps c c₁ events more result (apply_swap-signatures swap c (c₁, more) e)
        (λ new. apply_swaps-IsExtended swaps c₁ (events ++ new) result) rest

  pub apply_parsed-IsExtended :
      (parsed : Parse (List Swap)) (c : FeedCache fl libs) (events : List (Event fl libs))
      (result : FeedCache fl libs × Option (List (Event fl libs)))
      → apply_parsed fl libs parsed c events ≡ done result
      → IsExtended c events result
  unfolding apply_parsed
  apply_parsed-IsExtended panics c events result h = cc
  apply_parsed-IsExtended nothing c events result h =
      subst (IsExtended c events) (done-injective h)
        (refl, inr ([], ap some (sym (append-nil events))))
  apply_parsed-IsExtended (read swaps) c events result h =
      apply_swaps-IsExtended swaps c events result h
