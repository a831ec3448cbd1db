-- ===== src/Cache/LookupByValue/Removal.antt =====
-- What `remove` and `insert` of src/utils/circular_buffer_w_rev.rs leave in the two queues.
use foxfire_sniper.Base.{ℕ, ◌≡◌, true, false, some, List, ◌∷◌, find-erase_key, arith}
use foxfire_sniper.Cache.LookupByValue.{
  CircularBufferWithLookupByValue, insert, remove, contains_key, contains_value, get_by_key,
  get_by_value, get_all_values,
}

-- Where the key is held and the queue of values is not empty, a removal takes the key out of the
-- map and its value out of the reverse map, and returns the value. It leaves the queue of keys as
-- it was, the removed key included, and takes the value that stands first out of the queue of
-- values, whichever key was removed.
pub remove_present :
    (b : CircularBufferWithLookupByValue) (key value first : ℕ) (others : List ℕ)
    → get_by_key key b ≡ some value
    → b.reverse_deque ≡ first ∷ others
    → let (b', out) = remove key b in
      (out ≡ some value)
      × (contains_key key b' ≡ false)
      × (contains_value value b' ≡ false)
      × (b'.deque ≡ b.deque)
      × (get_all_values b' ≡ others)
unfolding remove get_by_key contains_key contains_value get_all_values
remove_present b key value first others e q =
    ground (arith, find-erase_key key key b.entries, find-erase_key value value b.reverse_entries)

-- After an insertion both lookups find the pair.
pub insert-lookups :
    (b : CircularBufferWithLookupByValue) (key value : ℕ)
    → (get_by_key key (insert key value b) ≡ some value)
      × (get_by_value value (insert key value b) ≡ some key)
unfolding insert get_by_key get_by_value
insert-lookups b key value = ground arith

-- After an insertion its value is held.
pub insert-contains_value :
    (b : CircularBufferWithLookupByValue) (key value : ℕ)
    → contains_value value (insert key value b) ≡ true
unfolding insert contains_value
insert-contains_value b key value = ground arith
