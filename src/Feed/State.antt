-- ===== src/Feed/State.antt =====
-- src/collectors/realtime_feed_events_collector.rs: what a transaction changes in the cache, the
-- receipt that it confirms, and the fee that is learnt from it.
use foxfire_sniper.Base.{
  ℕ, ◌-◌, ◌/◌, Bool, ◌&&◌, Option, none, some, List, ltb, if◌then◌else◌, Outcome, done, panic,
  ◌>>=◌,
}
use foxfire_sniper.Types.{
  Pubkey, Uuid, Signature, RaydiumPoolPriceUpdate, BotEvent, blockchain_event, execution_receipt,
  base_tx_fee_sol,
}
use foxfire_sniper.Cache.Operational
use foxfire_sniper.Cache.Operational.{
  Signatures, get_uuid_by_signature, mark_signature_as_processed,
}
use foxfire_sniper.Utils.FeeMetrics
use foxfire_sniper.Utils.FeeMetrics.{FeeMetrics}
use foxfire_sniper.Sniper.Floats.{Floats}
use foxfire_sniper.Feed.Swaps.{Transaction}

-- The feed is served live, on paper or in a back test.
pub data Mode : Type 0 where
  live paper_trading back_testing : Mode

-- What is read of a transaction's outcome.
pub record Status : Type 0 where
  pub is_ok : Bool
  pub err : Option ℕ
  pub fee : ℕ
  pub compute_units_consumed : Option ℕ

pub record TransactionPretty : Type 0 where
  pub is_vote : Bool
  pub signature : Signature
  pub status : Option Status
  pub tx : Transaction

-- A pool that is followed.
pub record TargetPool : Type 0 where
  pub id : Pubkey
  pub base_decimals : ℕ
  pub quote_decimals : ℕ

-- `LruCache` of the mints that have a pool, and `checked_pow` of the farm library.
pub record Libraries : Type 1 where
  pub Mints : Type 0
  pub has_mint : Pubkey → Mints → Bool
  pub put_mint : Pubkey → Pubkey → Mints → Mints
  pub checked_pow : ℕ → ℕ → Option ℕ

module _ (fl : Floats) (libs : Libraries) where
  -- The part of the cache that a transaction may change.
  pub record FeedCache : Type 0 where
    pub signatures : Signatures
    pub optimal_fee : FeeMetrics
    pub target_pools : List (Pubkey × TargetPool)
    pub target_pools_prices : List (Pubkey × RaydiumPoolPriceUpdate fl.F)
    pub target_tokens : libs.Mints

  abbrev pub Event : Type 0
  Event = BotEvent fl.F

  abbrev pub err_of : Option Status → Option ℕ
  err_of none = none
  err_of (some status) = status.err

  abbrev pub receipt : Uuid → Signature → Option ℕ → Event
  receipt uuid signature err = blockchain_event (
      execution_receipt
        (record { action_uuid = uuid; transaction_signature = signature; err = err }))

  abbrev pub with_signatures : FeedCache → Signatures → FeedCache
  with_signatures c signatures = record c { signatures = signatures }

  -- `Default::default()` as a signature is 0.
  unfoldable pub parse_cached_executions :
      Mode → TransactionPretty → FeedCache → Outcome (FeedCache × Option Event)
  parse_cached_executions live tx c = elim (get_uuid_by_signature tx.signature c.signatures) [
    | none ↦ done (c, none)
    | some swap_uuid ↦ done (
      with_signatures c (mark_signature_as_processed swap_uuid tx.signature c.signatures),
      some (receipt swap_uuid tx.signature (err_of tx.status)),
    )
  ]
  parse_cached_executions paper_trading tx c =
      let (rest, popped) = Operational.pop_front c.signatures in
      elim popped [
        | none ↦ done (with_signatures c rest, none)
        | some (swap_uuid, _) ↦ done (with_signatures c rest, some (receipt swap_uuid 0 none))
      ]
  parse_cached_executions back_testing tx c = panic

  -- The price per unit that the transaction paid, where it is one to learn from.
  abbrev pub fee_per_unit : Status → Option ℕ → Option ℕ
  fee_per_unit status none = none
  fee_per_unit status (some cu_consumed) =
      if ltb 0 cu_consumed && ltb base_tx_fee_sol status.fee
      then some ((status.fee - base_tx_fee_sol) / cu_consumed)
      else none

  unfoldable pub learn : Option ℕ → FeedCache → Outcome FeedCache
  unfolding FeeMetrics.add_fee
  learn none c = done c
  learn (some fee) c = do
    metrics ← FeeMetrics.add_fee fee c.optimal_fee
    done (record c { optimal_fee = metrics })

  unfoldable pub update_fee : Option Status → FeedCache → Outcome FeedCache
  unfolding learn
  update_fee none c = done c
  update_fee (some status) c =
      if status.is_ok then learn (fee_per_unit status status.compute_units_consumed) c else done c
