-- ===== src/Cache/Poll.antt =====
-- src/collectors/poll_tx_confirmation_collector.rs: one round of the polling loop. `status` is what
-- the RPC node answers for a signature: an error, no status yet, or the transaction's result.
pub mod Silence
use foxfire_sniper.Base.{
  ℕ, ◌≡◌, refl, Bool, true, false, Option, none, some, List, [], ◌∷◌, ◌++◌, if◌then◌else◌, Outcome,
  done, panic, ◌>>=◌, unwrap, arith, Option-cases, Bool-cases, inl, inr,
}
use foxfire_sniper.Types.{Signature, ExecutionReceipt}
use foxfire_sniper.Cache.Operational.{
  Signatures, get_uuid_by_signature, is_signature_processed, listed,
  get_all_unprocessed_tx_signatures, mark_signature_as_processed,
}
use foxfire_sniper.Cache.LookupByValue

pub data Status : Type 0 where
  rpc_error : Status
  unknown : Status
  -- The transaction's error, if it failed.
  landed : Option ℕ → Status

-- One signature of the round: the cache after it, and the receipts that are sent.
unfoldable pub poll_status :
    Status → Signature → Signatures → Outcome (Signatures × List ExecutionReceipt)
poll_status rpc_error signature c = done (c, [])
poll_status unknown signature c = done (c, [])
poll_status (landed err) signature c = do
  uuid ← unwrap (get_uuid_by_signature signature c)
  done (
      if is_signature_processed signature c then (c, []) else (
        mark_signature_as_processed uuid signature c,
        record { action_uuid = uuid; transaction_signature = signature; err = err } ∷ [],
      ))

module _ (status : Signature → Status) where
  unfoldable pub poll_each :
      List Signature → Signatures → Outcome (Signatures × List ExecutionReceipt)
  poll_each [] c = done (c, [])
  poll_each (s ∷ ss) c = do
    (c', out) ← poll_status (status s) s c
    (c'', more) ← poll_each ss c'
    done (c'', out ++ more)

  unfoldable pub poll_round : Signatures → Outcome (Signatures × List ExecutionReceipt)
  unfolding poll_each
  poll_round c = poll_each (get_all_unprocessed_tx_signatures c) c
