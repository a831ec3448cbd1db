-- ===== src/Cache/CircularBuffer/Fifo.antt =====
-- The circular buffer refines a bounded first-in first-out list of entries.
use foxfire_sniper.Base.{
  ℕ, suc, ◌≤◌, ◌<◌, ◌≡◌, refl, ap, false, none, some, List, [], ◌∷◌, ◌++◌, map, ◌==◌, if◌then◌else◌,
  length, length-append, find, put_key, find-erase_key, find-put_key, arith, Bool-cases, inl, inr,
  ◌∙◌,
}
use foxfire_sniper.Cache.CircularBuffer.{
  CircularBuffer, new, insert, drop_oldest, make_room, contains_key, pop_front, values_of,
  get_all_values,
}

module _ {ℓ} {V : Type ℓ} where
  abbrev pub keys : List (ℕ × V) → List ℕ
  keys = map (λ e. e.0)

  -- No key twice.
  abbrev pub Distinct : List (ℕ × V) → Type ℓ
  Distinct [] = Unit
  Distinct ((k, v) ∷ m) = (find k m ≡ none) × Distinct m

  abbrev pub without_oldest : List (ℕ × V) → List (ℕ × V)
  without_oldest [] = []
  without_oldest (_ ∷ rest) = rest

  -- The entries that stay when room for one more is made.
  abbrev pub spared : ℕ → List (ℕ × V) → List (ℕ × V)
  spared capacity es = if length es == capacity then without_oldest es else es

  -- The specification of an insertion: the oldest entry goes where the list is full.
  abbrev pub push : ℕ → ℕ × V → List (ℕ × V) → List (ℕ × V)
  push capacity e es = spared capacity es ++ e ∷ []

  -- The buffer holds the entries `es`, oldest first.
  pub record Holds (b : CircularBuffer V) (es : List (ℕ × V)) : Type ℓ where
    pub queue : b.deque ≡ keys es
    pub table : (k : ℕ) → find k b.entries ≡ find k es
    pub distinct : Distinct es
    pub fits : length es ≤ b.capacity

  length-keys : (es : List (ℕ × V)) → length (keys es) ≡ length es
  length-keys [] = refl
  length-keys (e ∷ es) = ap suc (length-keys es)

  keys-append : (es : List (ℕ × V)) (k : ℕ) (v : V) → keys (es ++ (k, v) ∷ []) ≡ keys es ++ k ∷ []
  keys-append [] k v = refl
  keys-append (e ∷ es) k v = ap (◌∷◌ e.0) (keys-append es k v)

  find-append :
      (q k : ℕ) (v : V) (es : List (ℕ × V))
      → find k es ≡ none
      → find q (es ++ (k, v) ∷ []) ≡ (if k == q then some v else find q es)
  find-append q k v [] h = refl
  find-append q k v ((j, w) ∷ es) h = ground (arith, find-append q k v es)

  Distinct-append :
      (k : ℕ) (v : V) (es : List (ℕ × V))
      → Distinct es
      → find k es ≡ none
      → Distinct (es ++ (k, v) ∷ [])
  Distinct-append k v [] d h = (refl, tt)
  Distinct-append k v ((j, w) ∷ es) d h =
      (ground (arith, find-append j k v es), Distinct-append k v es d.1 (ground arith))

  -- A new buffer holds nothing.
  pub new-Holds : (capacity : ℕ) → Holds (new capacity) []
  unfolding new
  new-Holds capacity = record { queue = refl; table = λ k. refl; distinct = tt; fits = omega arith }

  -- Room is made in the list and in the buffer alike.
  append-Holds :
      (b : CircularBuffer V) (es : List (ℕ × V)) (k : ℕ) (v : V)
      → Holds b es
      → find k es ≡ none
      → length es < b.capacity
      → Holds
          (record b { entries = put_key k v b.entries; deque = b.deque ++ k ∷ [] })
          (es ++ (k, v) ∷ [])
  append-Holds b es k v h fresh room = record {
    queue = rw (keys-append, h.queue);
    table = λ q. ground (arith, find-put_key q k v b.entries, find-append q k v es, h.table q);
    distinct = Distinct-append k v es h.distinct fresh;
    fits = omega (arith, length-append es ((k, v) ∷ []));
  }

  drop_oldest-Holds :
      (b : CircularBuffer V) (k : ℕ) (v : V) (es : List (ℕ × V))
      → Holds b ((k, v) ∷ es)
      → Holds (drop_oldest (k ∷ keys es) b) es
  unfolding drop_oldest
  drop_oldest-Holds b k v es h = record {
    queue = refl;
    table = λ q. ground (arith, find-erase_key q k b.entries, h.table q);
    distinct = h.distinct.1;
    fits = omega (arith, h.fits);
  }

  full_iff :
      (b : CircularBuffer V) (es : List (ℕ × V))
      → Holds b es
      → (length b.deque == b.capacity) ≡ (length es == b.capacity)
  full_iff b es h = rw (h.queue, length-keys)

  drop_nothing : (ks : List ℕ) (b : CircularBuffer V) → ks ≡ [] → drop_oldest ks b ≡ b
  unfolding drop_oldest
  drop_nothing [] b h = refl
  drop_nothing (k ∷ ks) b h = cc

  drop-Holds :
      (b : CircularBuffer V) (es : List (ℕ × V))
      → Holds b es
      → Holds (drop_oldest b.deque b) (without_oldest es)
  unfolding drop_oldest
  drop-Holds b [] h = rw (drop_nothing b.deque b h.queue) h
  drop-Holds b ((k, v) ∷ es) h = rw (h.queue, drop_oldest) (drop_oldest-Holds b k v es h)

  make_room-Holds :
      (b : CircularBuffer V) (es : List (ℕ × V))
      → Holds b es
      → Holds (make_room b) (spared b.capacity es)
  unfolding make_room
  make_room-Holds b es h = elim (Bool-cases (length es == b.capacity)) [
    | inl full ↦ rw (full_iff b es h, full) (drop-Holds b es h)
    | inr room ↦ rw (full_iff b es h, room) h
  ]

  drop_oldest-capacity :
      (ks : List ℕ) (b : CircularBuffer V) → (drop_oldest ks b).capacity ≡ b.capacity
  unfolding drop_oldest
  drop_oldest-capacity [] b = refl
  drop_oldest-capacity (k ∷ ks) b = refl

  make_room-capacity : (b : CircularBuffer V) → (make_room b).capacity ≡ b.capacity
  unfolding make_room
  make_room-capacity b = ground (arith, drop_oldest-capacity b.deque b)

  length-spared-lt :
      (capacity : ℕ) (es : List (ℕ × V))
      → 0 < capacity
      → length es ≤ capacity
      → length (spared capacity es) < capacity
  length-spared-lt capacity [] p h = ground arith
  length-spared-lt capacity (e ∷ es) p h = ground arith

  find-spared :
      (q capacity : ℕ) (es : List (ℕ × V)) → find q es ≡ none → find q (spared capacity es) ≡ none
  find-spared q capacity [] h = ground arith
  find-spared q capacity ((k, v) ∷ es) h = ground arith

  -- Into a buffer with room for at least one entry, an insertion of a key that is not held pushes
  -- the entry, and drops the oldest where the buffer is full.
  pub insert-Holds :
      (b : CircularBuffer V) (es : List (ℕ × V)) (k : ℕ) (v : V)
      → Holds b es
      → 0 < b.capacity
      → contains_key k b ≡ false
      → Holds (insert k v b) (push b.capacity (k, v) es)
  unfolding insert contains_key
  insert-Holds b es k v h pos absent =
      append-Holds (make_room b) (spared b.capacity es) k v (make_room-Holds b es h)
        (find-spared k b.capacity es (ground (arith, h.table k)))
        (omega (arith, make_room-capacity b, length-spared-lt b.capacity es pos h.fits))

  -- From a buffer that holds an entry, `pop_front` hands out the oldest one and keeps the others.
  pub pop_front-Holds :
      (b : CircularBuffer V) (k : ℕ) (v : V) (es : List (ℕ × V))
      → Holds b ((k, v) ∷ es)
      → ((pop_front b).1 ≡ some (k, v)) × Holds (pop_front b).0 es
  unfolding pop_front drop_oldest
  pop_front-Holds b k v es h = rw h.queue (ground (arith, h.table k), drop_oldest-Holds b k v es h)

  -- The values found under the keys of a list of entries without a key twice.
  values_of-keys :
      (es : List (ℕ × V)) (m : List (ℕ × V))
      → Distinct es
      → ((k : ℕ) (v : V) → find k es ≡ some v → find k m ≡ some v)
      → values_of (keys es) m ≡ map (λ e. e.1) es
  unfolding values_of
  values_of-keys [] m d h = refl
  values_of-keys ((k, v) ∷ es) m d h =
      rw (h k v (ground arith), values_of)
        (ap (◌∷◌ v) (values_of-keys es m d.1 (λ j w e. h j w (ground (arith, d.0)))))

  -- The values of a buffer are those of the entries it holds, oldest first.
  pub get_all_values-Holds :
      (b : CircularBuffer V) (es : List (ℕ × V)) → Holds b es → get_all_values b ≡ map (λ e. e.1) es
  unfolding get_all_values
  get_all_values-Holds b es h =
      rw h.queue (values_of-keys es b.entries h.distinct (λ k v e. h.table k ∙ e))
