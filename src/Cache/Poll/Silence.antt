-- ===== src/Cache/Poll/Silence.antt =====
-- What one round of src/collectors/poll_tx_confirmation_collector.rs sends.
use foxfire_sniper.Base.{
  ◌≡◌, refl, true, ◌&&◌, Bool-cases, inl, inr, List, [], ◌∷◌, done, contains, has_key, arith,
}
use foxfire_sniper.Types.{Signature}
use foxfire_sniper.Cache.LookupByValue.{get_by_value, get_all_values}
use foxfire_sniper.Cache.Operational.{
  Signatures, get_uuid_by_signature, is_signature_processed, listed,
  get_all_unprocessed_tx_signatures,
}
use foxfire_sniper.Cache.Poll.{
  Status, rpc_error, unknown, landed, poll_status, poll_each, poll_round,
}

-- Each signature has an action in the reverse map.
abbrev pub IsKnown : Signatures → List Signature → Type 0
IsKnown c [] = Unit
IsKnown c (s ∷ ss) = (has_key s c.agent_tx_signatures.reverse_entries ≡ true) × IsKnown c ss

abbrev AreProcessed : Signatures → List Signature → Type 0
AreProcessed c [] = Unit
AreProcessed c (s ∷ ss) = (is_signature_processed s c ≡ true) × AreProcessed c ss

listed-AreProcessed : (c : Signatures) (ss : List Signature) → AreProcessed c (listed c ss)
unfolding listed
listed-AreProcessed c [] = tt
listed-AreProcessed c (s ∷ ss) = elim (Bool-cases (is_signature_processed s c)) [
  | inl p ↦ rw (p, listed) (p, listed-AreProcessed c ss)
  | inr n ↦ rw (n, listed) (listed-AreProcessed c ss)
]

listed-IsKnown : (c : Signatures) (ss : List Signature) → IsKnown c ss → IsKnown c (listed c ss)
unfolding listed
listed-IsKnown c [] k = tt
listed-IsKnown c (s ∷ ss) k = elim (Bool-cases (is_signature_processed s c)) [
  | inl p ↦ rw (p, listed) (k.0, listed-IsKnown c ss k.1)
  | inr n ↦ rw (n, listed) (listed-IsKnown c ss k.1)
]

contains-listed :
    (c : Signatures) (s : Signature) (ss : List Signature)
    → contains s (listed c ss) ≡ (contains s ss && is_signature_processed s c)
unfolding listed
contains-listed c s [] = refl
contains-listed c s (x ∷ ss) = ground (arith, contains-listed c s ss)

-- The signatures returned as unprocessed are exactly the agents' signatures that are marked as
-- processed.
pub contains-get_all_unprocessed_tx_signatures :
    (c : Signatures) (s : Signature)
    → contains s (get_all_unprocessed_tx_signatures c)
      ≡ (contains s (get_all_values c.agent_tx_signatures) && is_signature_processed s c)
unfolding get_all_unprocessed_tx_signatures
contains-get_all_unprocessed_tx_signatures c s =
    contains-listed c s (get_all_values c.agent_tx_signatures)

poll_status_silent :
    (c : Signatures) (s : Signature) (answer : Status)
    → is_signature_processed s c ≡ true
    → has_key s c.agent_tx_signatures.reverse_entries ≡ true
    → poll_status answer s c ≡ done (c, [])
unfolding poll_status get_uuid_by_signature get_by_value
poll_status_silent c s rpc_error p k = refl
poll_status_silent c s unknown p k = refl
poll_status_silent c s (landed err) p k = rw p (ground arith)

module _ (status : Signature → Status) where
  poll_each_silent :
      (c : Signatures) (ss : List Signature)
      → AreProcessed c ss
      → IsKnown c ss
      → poll_each status ss c ≡ done (c, [])
  unfolding poll_each
  poll_each_silent c [] p k = refl
  poll_each_silent c (s ∷ ss) p k =
      rw (poll_status_silent c s (status s) p.0 k.0, poll_each_silent c ss p.1 k.1)

  -- Where every signature of the agents has its action in the cache, a polling round sends no
  -- receipt and marks nothing, whatever the node answers.
  pub poll_round_silent :
      (c : Signatures)
      → IsKnown c (get_all_values c.agent_tx_signatures)
      → poll_round status c ≡ done (c, [])
  unfolding poll_round get_all_unprocessed_tx_signatures
  poll_round_silent c k =
      let ss = get_all_values c.agent_tx_signatures in
      poll_each_silent c (listed c ss) (listed-AreProcessed c ss) (listed-IsKnown c ss k)
