-- ===== src/Cache/LookupByValue.antt =====
-- src/utils/circular_buffer_w_rev.rs: a circular buffer with a second map, from values to keys,
-- and a second queue, of the values.
pub mod Removal
use foxfire_sniper.Base.{
  ℕ, Bool, Option, none, some, List, [], ◌∷◌, ◌++◌, ◌==◌, if◌then◌else◌, length, find, has_key,
  erase_key, put_key,
}

pub record CircularBufferWithLookupByValue : Type 0 where
  pub entries : List (ℕ × ℕ)
  pub reverse_entries : List (ℕ × ℕ)
  pub deque : List ℕ
  pub reverse_deque : List ℕ
  pub capacity : ℕ

abbrev Buffer : Type 0
Buffer = CircularBufferWithLookupByValue

unfoldable pub new : ℕ → CircularBufferWithLookupByValue
new capacity = record {
  entries = [];
  reverse_entries = [];
  deque = [];
  reverse_deque = [];
  capacity = capacity;
}

-- `VecDeque::pop_front`, its result dropped.
abbrev pop_head : List ℕ → List ℕ
pop_head [] = []
pop_head (_ ∷ rest) = rest

-- `self.map.remove(key)`, and where it held a value the second map and the second queue follow.
unfoldable pub forget :
    ℕ → CircularBufferWithLookupByValue → CircularBufferWithLookupByValue × Option ℕ
forget key b = elim (find key b.entries) [
  | none ↦ (b, none)
  | some value ↦ (
    record b {
      entries = erase_key key b.entries;
      reverse_entries = erase_key value b.reverse_entries;
      reverse_deque = pop_head b.reverse_deque;
    },
    some value,
  )
]

evict : List ℕ → Buffer → Buffer
unfolding forget
evict [] b = b
evict (old_key ∷ rest) b = (forget old_key (record b { deque = rest })).0

make_room : Buffer → Buffer
unfolding evict
make_room b = if length b.deque == b.capacity then evict b.deque b else b

unfoldable pub insert : ℕ → ℕ → CircularBufferWithLookupByValue → CircularBufferWithLookupByValue
unfolding make_room
insert key value b =
    let room = make_room b in
    record room {
      entries = put_key key value room.entries;
      reverse_entries = put_key value key room.reverse_entries;
      deque = room.deque ++ key ∷ [];
      reverse_deque = room.reverse_deque ++ value ∷ [];
    }

unfoldable pub contains_key : ℕ → CircularBufferWithLookupByValue → Bool
contains_key key b = has_key key b.entries

unfoldable pub contains_value : ℕ → CircularBufferWithLookupByValue → Bool
contains_value value b = has_key value b.reverse_entries

unfoldable pub get_by_key : ℕ → CircularBufferWithLookupByValue → Option ℕ
get_by_key key b = find key b.entries

unfoldable pub get_by_value : ℕ → CircularBufferWithLookupByValue → Option ℕ
get_by_value value b = find value b.reverse_entries

with_key : ℕ → Buffer × Option ℕ → Buffer × Option (ℕ × ℕ)
with_key key (b, none) = (b, none)
with_key key (b, some value) = (b, some (key, value))

pop_queue : List ℕ → Buffer → Buffer × Option (ℕ × ℕ)
unfolding forget with_key
pop_queue [] b = (b, none)
pop_queue (key ∷ rest) b = with_key key (forget key (record b { deque = rest }))

unfoldable pub pop_front :
    CircularBufferWithLookupByValue → CircularBufferWithLookupByValue × Option (ℕ × ℕ)
unfolding pop_queue
pop_front b = pop_queue b.deque b

unfoldable pub remove :
    ℕ → CircularBufferWithLookupByValue → CircularBufferWithLookupByValue × Option ℕ
unfolding forget
remove key b = forget key b

unfoldable pub get_all_values : CircularBufferWithLookupByValue → List ℕ
get_all_values b = b.reverse_deque
