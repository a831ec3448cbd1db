-- ===== src/Tests/Buffers.antt =====
-- Runs of the buffers of src/utils and of the signatures of src/config/cache.rs.
use foxfire_sniper.Base.{ℕ, refl, [], ◌∷◌, arith}
use foxfire_sniper.Cache.CircularBuffer as Buffer
use foxfire_sniper.Cache.CircularBuffer.{CircularBuffer}
use foxfire_sniper.Cache.CircularBuffer.Fifo.{Holds, insert-Holds}
use foxfire_sniper.Cache.LookupByValue as Lookup
use foxfire_sniper.Cache.LookupByValue.{CircularBufferWithLookupByValue}
use foxfire_sniper.Cache.Operational.{Signatures}

-- A full buffer for two, that holds 10 at 1 and 20 at 2.
abbrev full : CircularBuffer ℕ
full = record { capacity = 2; deque = 1 ∷ 2 ∷ []; entries = (1, 10) ∷ (2, 20) ∷ [] }

full-Holds : Holds full ((1, 10) ∷ (2, 20) ∷ [])
full-Holds = record {
  queue = refl;
  table = λ k. refl;
  distinct = (refl, (refl, tt));
  fits = omega arith;
}

insert-Holds_example : Holds (Buffer.insert 3 30 full) ((2, 20) ∷ (3, 30) ∷ [])
unfolding Buffer.contains_key
insert-Holds_example = insert-Holds full ((1, 10) ∷ (2, 20) ∷ []) 3 30 full-Holds (omega arith) refl

-- Two actions, 1 and 2, and their signatures, 10 and 20.
abbrev pair : CircularBufferWithLookupByValue
pair = record {
  entries = (1, 10) ∷ (2, 20) ∷ [];
  reverse_entries = (10, 1) ∷ (20, 2) ∷ [];
  deque = 1 ∷ 2 ∷ [];
  reverse_deque = 10 ∷ 20 ∷ [];
  capacity = 8;
}

-- The signature 20 is marked as processed.
abbrev signatures : Signatures
signatures = record {
  agent_tx_signatures = pair;
  processed_signatures = Lookup.insert 2 20 (Lookup.new 1024);
}
