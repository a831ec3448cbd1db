-- ===== src/Feed/Prices.antt =====
-- What a swap in a pool that is followed leaves of the cached price.
use foxfire_sniper.Base.{
  ◌≡◌, refl, sym, ap, ◌∙◌, Bool, true, false, none, some, List, [], ◌∷◌, find, done, ◌>>=◌,
  Outcome-bind_inv, arith, ==_refl, if◌then◌else◌,
}
use foxfire_sniper.Types.{RaydiumPoolPriceUpdate, blockchain_event, raydium_swap_event}
use foxfire_sniper.Statechart.Runs.{done-injective}
use foxfire_sniper.Sniper.Floats.{Floats}
use foxfire_sniper.Feed.Swaps.{Swap}
use foxfire_sniper.Feed.State.{TargetPool, Libraries, FeedCache, Event}
use foxfire_sniper.Feed.Reserves.{
  tokens_to_ui_amount_with_decimals_f64, is_dead, applied, apply_priced, with_reserves, after_swap,
}

kept {ℓ} :
    {A : Type ℓ} (b : Bool) (x : A) {y : A}
    → (if b then none else some x) ≡ some y
    → (b ≡ false) × (x ≡ y)
kept true x h = cc
kept false x h = (refl, cc)

module _ (fl : Floats) (libs : Libraries) where
  applied-stored :
      (swap : Swap) (pool : TargetPool) (before : RaydiumPoolPriceUpdate fl.F)
      (c : FeedCache fl libs) (base quote : fl.F) (es : List (Event fl libs))
      → (applied fl libs swap pool before c base quote).1 ≡ some es
      → let c' = (applied fl libs swap pool before c base quote).0 in
        (update : RaydiumPoolPriceUpdate fl.F) × (stored : RaydiumPoolPriceUpdate fl.F) × (es
          ≡ blockchain_event (raydium_swap_event update) ∷ [])
        × (find swap.pool_id c'.target_pools_prices ≡ some stored)
        × (stored.base_reserve ≡ update.base_reserve)
        × (stored.quote_reserve ≡ update.quote_reserve)
        × (stored.price ≡ before.price)
        × (is_dead fl libs update ≡ false)
  applied-stored swap pool before c base quote es h =
      let update = after_swap fl libs pool.id swap.trade_direction base quote before in
      let (alive, e) = kept (is_dead fl libs update) _ h in
      (
        update,
        with_reserves fl libs before update,
        sym e,
        ground (arith, ==_refl swap.pool_id),
        refl,
        refl,
        refl,
        alive,
      )

  -- A swap in a pool that is followed, whose event is passed on: the reserves in the cache become
  -- those of the event, neither of them negative, while the price in the cache stays the one from
  -- before the swap, although the event has the new one.
  pub apply_priced-stored :
      (swap : Swap) (pool : TargetPool) (before : RaydiumPoolPriceUpdate fl.F)
      (c c' : FeedCache fl libs) (es : List (Event fl libs))
      → apply_priced fl libs swap pool (some before) c ≡ done (c', some es)
      → (update : RaydiumPoolPriceUpdate fl.F) × (stored : RaydiumPoolPriceUpdate fl.F) × (es
          ≡ blockchain_event (raydium_swap_event update) ∷ [])
        × (find swap.pool_id c'.target_pools_prices ≡ some stored)
        × (stored.base_reserve ≡ update.base_reserve)
        × (stored.quote_reserve ≡ update.quote_reserve)
        × (stored.price ≡ before.price)
        × (is_dead fl libs update ≡ false)
  unfolding apply_priced
  apply_priced-stored swap pool before c c' es h =
      let ui = tokens_to_ui_amount_with_decimals_f64 fl libs in
      let (base, _, r₁) =
        Outcome-bind_inv (ui swap.base_amount pool.base_decimals)
          (λ base.
            ui swap.quote_amount pool.quote_decimals
            >>= (λ quote. done (applied fl libs swap pool before c base quote)))
          h in
      let (quote, _, r₂) =
        Outcome-bind_inv (ui swap.quote_amount pool.quote_decimals)
          (λ quote. done (applied fl libs swap pool before c base quote)) r₁ in
      let e : applied fl libs swap pool before c base quote ≡ (c', some es) = done-injective r₂ in
      let (update, stored, s₁, s₂, s₃, s₄, s₅, s₆) =
        applied-stored swap pool before c base quote es (ap (λ x. x.1) e) in
      (
        update,
        stored,
        s₁,
        sym (ap (λ x. find swap.pool_id x.0.target_pools_prices) e) ∙ s₂,
        s₃,
        s₄,
        s₅,
        s₆,
      )
