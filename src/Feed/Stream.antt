-- ===== src/Feed/Stream.antt =====
-- src/collectors/realtime_feed_events_collector.rs: a transaction of the chain, as a whole.
use foxfire_sniper.Base.{
  Option, none, some, List, [], ◌∷◌, ◌++◌, if◌then◌else◌, Outcome, done, ◌>>=◌,
}
use foxfire_sniper.Types.{
  RaydiumPool, RaydiumPoolPriceUpdate, blockchain_event, raydium_new_pool_event,
}
use foxfire_sniper.Sniper.Floats.{Floats}
use foxfire_sniper.Feed.Swaps.{Chain, parse_tx_for_swaps}
use foxfire_sniper.Feed.State.{
  Mode, TransactionPretty, Libraries, FeedCache, Event, parse_cached_executions, update_fee,
}
use foxfire_sniper.Feed.Reserves.{apply_parsed}

module _ (fl : Floats) (libs : Libraries) where
  -- A pool that `extract_pool_from_init_tx` found; a mint that has one already is skipped.
  unfoldable pub apply_new_pool :
      Option (RaydiumPool × RaydiumPoolPriceUpdate fl.F)
      → FeedCache fl libs
      → List (Event fl libs)
      → FeedCache fl libs × List (Event fl libs)
  apply_new_pool none c events = (c, events)
  apply_new_pool (some (new_pool, price_update)) c events =
      if libs.has_mint new_pool.base_mint c.target_tokens then (c, events) else (
        record c { target_tokens = libs.put_mint new_pool.base_mint new_pool.id c.target_tokens },
        events ++ blockchain_event (raydium_new_pool_event new_pool price_update) ∷ [],
      )

  -- `Some(events).filter(|events| !events.is_empty())`
  abbrev pub some_events : List (Event fl libs) → Option (List (Event fl libs))
  some_events [] = none
  some_events (e ∷ es) = some (e ∷ es)

  abbrev pub to_list : Option (Event fl libs) → List (Event fl libs)
  to_list none = []
  to_list (some e) = e ∷ []

  unfoldable pub finish :
      Option (RaydiumPool × RaydiumPoolPriceUpdate fl.F)
      → FeedCache fl libs × Option (List (Event fl libs))
      → FeedCache fl libs × Option (List (Event fl libs))
  unfolding apply_new_pool
  finish found (c, none) = (c, none)
  finish found (c, some events) =
      let (c', all) = apply_new_pool found c events in (c', some_events all)

  -- From the learning of the fee on. `found` is what `extract_pool_from_init_tx` makes of the
  -- transaction.
  unfoldable pub after_confirmation :
      Chain
      → Option (RaydiumPool × RaydiumPoolPriceUpdate fl.F)
      → TransactionPretty
      → FeedCache fl libs × Option (Event fl libs)
      → Outcome (FeedCache fl libs × Option (List (Event fl libs)))
  unfolding update_fee apply_parsed finish
  after_confirmation chain found tx (c, confirmation) = do
    c' ← update_fee fl libs tx.status c
    result ← apply_parsed fl libs (parse_tx_for_swaps chain tx.tx) c' (to_list confirmation)
    done (finish found result)

  unfoldable pub parse_transaction :
      Chain
      → Mode
      → Option (RaydiumPool × RaydiumPoolPriceUpdate fl.F)
      → TransactionPretty
      → FeedCache fl libs
      → Outcome (FeedCache fl libs × Option (List (Event fl libs)))
  unfolding parse_cached_executions after_confirmation
  parse_transaction chain mode found tx c =
      if tx.is_vote
      then done (c, none)
      else parse_cached_executions fl libs mode tx c >>= after_confirmation chain found tx
