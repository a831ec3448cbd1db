-- ===== src/Feed/Reserves.antt =====
-- src/collectors/realtime_feed_events_collector.rs: the reserves and prices of the pools that are
-- followed, over the swaps of a transaction.
use foxfire_sniper.Base.{
  ℕ, Bool, ◌||◌, Option, none, some, List, [], ◌∷◌, ◌++◌, ◌==◌, if◌then◌else◌, find, put_key,
  Outcome, done, panic, ◌>>=◌, unwrap,
}
use foxfire_sniper.Types.{Pubkey, RaydiumPoolPriceUpdate, blockchain_event, raydium_swap_event}
use foxfire_sniper.Sniper.Floats.{Floats}
use foxfire_sniper.Feed.Transactions.{Parse, read, nothing, panics}
use foxfire_sniper.Feed.Swaps.{TradeDirection, buy, sell, Swap}
use foxfire_sniper.Feed.State.{TargetPool, Libraries, FeedCache, Event}

module _ (fl : Floats) (libs : Libraries) where
  -- src/utils/decimals.rs
  unfoldable pub tokens_to_ui_amount_with_decimals_f64 : ℕ → ℕ → Outcome fl.F
  tokens_to_ui_amount_with_decimals_f64 amount decimals =
      if amount == 0 then done (fl.lit 0) else do
        divisor ← unwrap (libs.checked_pow 10 decimals)
        done (fl.div (fl.lit amount) (fl.lit divisor))

  -- The reserves after a swap, and their price.
  abbrev pub after_swap :
      Pubkey
      → TradeDirection
      → fl.F
      → fl.F
      → RaydiumPoolPriceUpdate fl.F
      → RaydiumPoolPriceUpdate fl.F
  after_swap pool direction base quote before =
      let base' : fl.F = elim direction [
        | buy ↦ fl.sub before.base_reserve base
        | sell ↦ fl.add before.base_reserve base
      ] in
      let quote' : fl.F = elim direction [
        | buy ↦ fl.add before.quote_reserve quote
        | sell ↦ fl.sub before.quote_reserve quote
      ] in
      record {
        pool = pool;
        price = fl.div quote' base';
        base_reserve = base';
        quote_reserve = quote';
      }

  -- The pool's entry keeps its pool and price: only the reserves are written.
  abbrev pub with_reserves :
      RaydiumPoolPriceUpdate fl.F → RaydiumPoolPriceUpdate fl.F → RaydiumPoolPriceUpdate fl.F
  with_reserves before after = record before {
    base_reserve = after.base_reserve;
    quote_reserve = after.quote_reserve;
  }

  abbrev pub is_dead : RaydiumPoolPriceUpdate fl.F → Bool
  is_dead u = fl.lt u.base_reserve (fl.lit 0) || fl.lt u.quote_reserve (fl.lit 0)

  -- The reserves are written, and the event is made unless one of them is negative.
  abbrev pub applied :
      Swap
      → TargetPool
      → RaydiumPoolPriceUpdate fl.F
      → FeedCache fl libs
      → fl.F
      → fl.F
      → FeedCache fl libs × Option (List (Event fl libs))
  applied swap pool before c base quote =
      let update = after_swap pool.id swap.trade_direction base quote before in
      (
        record c {
          target_pools_prices =
              put_key swap.pool_id (with_reserves before update) c.target_pools_prices;
        },
        if is_dead update then none else some (blockchain_event (raydium_swap_event update) ∷ []),
      )

  -- A swap in a pool that is followed; `none` ends the call with `None`.
  unfoldable pub apply_priced :
      Swap
      → TargetPool
      → Option (RaydiumPoolPriceUpdate fl.F)
      → FeedCache fl libs
      → Outcome (FeedCache fl libs × Option (List (Event fl libs)))
  unfolding tokens_to_ui_amount_with_decimals_f64
  apply_priced swap pool none c = done (c, none)
  apply_priced swap pool (some before) c = do
    base ← tokens_to_ui_amount_with_decimals_f64 swap.base_amount pool.base_decimals
    quote ← tokens_to_ui_amount_with_decimals_f64 swap.quote_amount pool.quote_decimals
    done (applied swap pool before c base quote)

  unfoldable pub apply_swap :
      Swap → FeedCache fl libs → Outcome (FeedCache fl libs × Option (List (Event fl libs)))
  unfolding apply_priced
  apply_swap swap c = elim (find swap.pool_id c.target_pools) [
    | none ↦ done (c, some [])
    | some pool ↦ apply_priced swap pool (find swap.pool_id c.target_pools_prices) c
  ]

  -- `return None`, or on with the loop.
  abbrev pub continued :
      (List (Event fl libs) → Outcome (FeedCache fl libs × Option (List (Event fl libs))))
      → FeedCache fl libs
      → Option (List (Event fl libs))
      → Outcome (FeedCache fl libs × Option (List (Event fl libs)))
  continued go c none = done (c, none)
  continued go c (some new) = go new

  -- The loop over the swaps, with the events so far.
  unfoldable pub apply_swaps :
      List Swap
      → FeedCache fl libs
      → List (Event fl libs)
      → Outcome (FeedCache fl libs × Option (List (Event fl libs)))
  unfolding apply_swap
  apply_swaps [] c events = done (c, some events)
  apply_swaps (swap ∷ swaps) c events = do
    (c', more) ← apply_swap swap c
    continued (λ new. apply_swaps swaps c' (events ++ new)) c' more

  unfoldable pub apply_parsed :
      Parse (List Swap)
      → FeedCache fl libs
      → List (Event fl libs)
      → Outcome (FeedCache fl libs × Option (List (Event fl libs)))
  unfolding apply_swaps
  apply_parsed panics c events = panic
  apply_parsed nothing c events = done (c, some events)
  apply_parsed (read swaps) c events = apply_swaps swaps c events
