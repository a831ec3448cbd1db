-- ===== src/Cache/CircularBuffer.antt =====
-- src/utils/circular_buffer.rs: a map with the queue of its keys, oldest first.
pub mod Fifo
use foxfire_sniper.Base.{
  ℕ, Bool, Option, none, some, List, [], ◌∷◌, ◌++◌, ◌==◌, if◌then◌else◌, length, find, has_key,
  erase_key, put_key,
}

pub record CircularBuffer {ℓ} (V : Type ℓ) : Type ℓ where
  pub entries : List (ℕ × V)
  pub deque : List ℕ
  pub capacity : ℕ

module _ {ℓ} {V : Type ℓ} where
  unfoldable pub new : ℕ → CircularBuffer V
  new capacity = record { entries = []; deque = []; capacity = capacity }

  -- `if let Some(old_key) = self.deque.pop_front() { self.map.remove(&old_key); }`
  drop_oldest : List ℕ → CircularBuffer V → CircularBuffer V
  drop_oldest [] b = b
  drop_oldest (old_key ∷ rest) b = record b { entries = erase_key old_key b.entries; deque = rest }

  -- `if self.deque.len() == self.capacity { .. }`
  make_room : CircularBuffer V → CircularBuffer V
  make_room b = if length b.deque == b.capacity then drop_oldest b.deque b else b

  unfoldable pub insert : ℕ → V → CircularBuffer V → CircularBuffer V
  unfolding drop_oldest make_room
  insert key value b =
      let room = make_room b in
      record room { entries = put_key key value room.entries; deque = room.deque ++ key ∷ [] }

  unfoldable pub contains_key : ℕ → CircularBuffer V → Bool
  contains_key key b = has_key key b.entries

  unfoldable pub len : CircularBuffer V → ℕ
  len b = length b.deque

  unfoldable pub get_by_key : ℕ → CircularBuffer V → Option V
  get_by_key key b = find key b.entries

  take_value : ℕ → Option V → Option (ℕ × V)
  take_value key none = none
  take_value key (some value) = some (key, value)

  pop_queue : List ℕ → CircularBuffer V → CircularBuffer V × Option (ℕ × V)
  unfolding take_value
  pop_queue [] b = (b, none)
  pop_queue (key ∷ rest) b = (
    record b { entries = erase_key key b.entries; deque = rest },
    take_value key (find key b.entries),
  )

  unfoldable pub pop_front : CircularBuffer V → CircularBuffer V × Option (ℕ × V)
  unfolding pop_queue
  pop_front b = pop_queue b.deque b

  values_of : List ℕ → List (ℕ × V) → List V
  values_of [] m = []
  values_of (k ∷ ks) m =
      let rest = values_of ks m in elim (find k m) [ none ↦ rest | some v ↦ v ∷ rest ]

  unfoldable pub get_all_values : CircularBuffer V → List V
  unfolding values_of
  get_all_values b = values_of b.deque b.entries
