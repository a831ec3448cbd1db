-- ===== src/Cache/Operational.antt =====
-- src/config/cache.rs: the operations of the shared cache on actions and signatures.
use foxfire_sniper.Base.{Bool, Option, List, [], ◌∷◌, if◌then◌else◌}
use foxfire_sniper.Types.{Uuid, Signature, SolanaAction, cached_tx_signatures_buffer_capacity}
use foxfire_sniper.Cache.CircularBuffer
use foxfire_sniper.Cache.CircularBuffer.{CircularBuffer}
use foxfire_sniper.Cache.LookupByValue
use foxfire_sniper.Cache.LookupByValue.{CircularBufferWithLookupByValue}

-- The signatures of the agents' transactions, and those whose receipt was passed on.
pub record Signatures : Type 0 where
  pub agent_tx_signatures : CircularBufferWithLookupByValue
  pub processed_signatures : CircularBufferWithLookupByValue

unfoldable pub new : Signatures
unfolding LookupByValue.new
new = record {
  agent_tx_signatures = LookupByValue.new cached_tx_signatures_buffer_capacity;
  processed_signatures = LookupByValue.new cached_tx_signatures_buffer_capacity;
}

unfoldable pub register_action :
    SolanaAction → CircularBuffer SolanaAction → CircularBuffer SolanaAction
register_action action actions = CircularBuffer.insert action.uuid action actions

unfoldable pub get_action_by_uuid : Uuid → CircularBuffer SolanaAction → Option SolanaAction
get_action_by_uuid uuid actions = CircularBuffer.get_by_key uuid actions

unfoldable pub add_agent_tx : Uuid → Signature → Signatures → Signatures
add_agent_tx uuid signature c = record c {
  agent_tx_signatures = LookupByValue.insert uuid signature c.agent_tx_signatures;
}

unfoldable pub get_uuid_by_signature : Signature → Signatures → Option Uuid
get_uuid_by_signature signature c = LookupByValue.get_by_value signature c.agent_tx_signatures

unfoldable pub get_signature_by_uuid : Uuid → Signatures → Option Signature
get_signature_by_uuid uuid c = LookupByValue.get_by_key uuid c.agent_tx_signatures

unfoldable pub pop_front : Signatures → Signatures × Option (Uuid × Signature)
pop_front c =
    let (rest, oldest) = LookupByValue.pop_front c.agent_tx_signatures in
    (record c { agent_tx_signatures = rest }, oldest)

unfoldable pub if_agent_signature : Signature → Signatures → Bool
if_agent_signature signature c = LookupByValue.contains_value signature c.agent_tx_signatures

unfoldable pub is_signature_processed : Signature → Signatures → Bool
is_signature_processed signature c = LookupByValue.contains_value signature c.processed_signatures

-- `.filter(|signature| processed_signatures.contains_value(..))`
unfoldable pub listed : Signatures → List Signature → List Signature
unfolding is_signature_processed
listed c [] = []
listed c (s ∷ ss) = let rest = listed c ss in if is_signature_processed s c then s ∷ rest else rest

unfoldable pub get_all_unprocessed_tx_signatures : Signatures → List Signature
unfolding listed
get_all_unprocessed_tx_signatures c = listed c (LookupByValue.get_all_values c.agent_tx_signatures)

unfoldable pub mark_signature_as_processed : Uuid → Signature → Signatures → Signatures
mark_signature_as_processed uuid signature c = record c {
  processed_signatures = LookupByValue.insert uuid signature c.processed_signatures;
}
