-- ===== src/Engine/Order.antt =====
-- What receivers get, whatever the order of the steps of src/engine.rs.
use foxfire_sniper.Base.{
  ℕ, zero, suc, ◌+◌, ◌≡◌, ◌≤◌, ◌⊎◌, inl, inr, refl, sym, ap, ◌∙◌, subst, leb, true, none, some,
  List, [], ◌∷◌, ◌++◌, length, get_elem?, length-append, if-elim-with, arith,
}
use foxfire_sniper.Engine.{Receiver, got, lag}

-- Some of the messages, in their order.
pub data Sub {M : Type 0} : List M → List M → Type 0 where
  nothing : Sub [] []
  keep : {m : M} {xs ys : List M} → Sub xs ys → Sub (m ∷ xs) (m ∷ ys)
  skip : {m : M} {xs ys : List M} → Sub xs ys → Sub xs (m ∷ ys)

Sub-skip_all : {M : Type 0} (zs : List M) → Sub [] zs
Sub-skip_all [] = nothing
Sub-skip_all (z ∷ zs) = skip (Sub-skip_all zs)

Sub-snoc : {M : Type 0} {xs ys : List M} (m : M) → Sub xs ys → Sub (xs ++ m ∷ []) (ys ++ m ∷ [])
Sub-snoc m nothing = keep nothing
Sub-snoc m (keep h) = keep (Sub-snoc m h)
Sub-snoc m (skip h) = skip (Sub-snoc m h)

Sub-more : {M : Type 0} {xs ys : List M} (zs : List M) → Sub xs ys → Sub xs (ys ++ zs)
Sub-more zs nothing = Sub-skip_all zs
Sub-more zs (keep h) = keep (Sub-more zs h)
Sub-more zs (skip h) = skip (Sub-more zs h)

append_assoc : {M : Type 0} (xs ys zs : List M) → (xs ++ ys) ++ zs ≡ xs ++ (ys ++ zs)
append_assoc [] ys zs = refl
append_assoc (x ∷ xs) ys zs = ap (λ t. x ∷ t) (append_assoc xs ys zs)

pub length-append-one : {M : Type 0} (xs : List M) (m : M) → length (xs ++ m ∷ []) ≡ length xs + 1
length-append-one xs m = length-append xs (m ∷ [])

get_elem?-append :
    {M : Type 0} (past future : List M)
    → get_elem? (past ++ future) (length past) ≡ get_elem? future 0
get_elem?-append [] future = refl
get_elem?-append (m ∷ past) future = get_elem?-append past future

-- The messages behind a receiver are the oldest ones; it got some of them, in their order, and lost
-- the others.
pub record IsInOrder {M : Type 0} (sent : List M) (r : Receiver M) : Type 0 where
  pub past : List M
  pub future : List M
  pub split : sent ≡ past ++ future
  pub position : length past ≡ r.position
  pub seen : Sub r.seen past
  pub counts : length r.seen + r.lost ≡ r.position

pub sent-IsInOrder :
    {M : Type 0} (sent more : List M) (r : Receiver M)
    → IsInOrder sent r
    → IsInOrder (sent ++ more) r
sent-IsInOrder sent more r h = record {
  past = h.past;
  future = h.future ++ more;
  split = ap (λ t. t ++ more) h.split ∙ append_assoc h.past h.future more;
  position = h.position;
  seen = h.seen;
  counts = h.counts;
}

-- One message more is behind the receiver.
got-IsInOrder :
    {M : Type 0} (past future : List M) (m : M) (r : Receiver M)
    → length past ≡ r.position
    → Sub r.seen past
    → length r.seen + r.lost ≡ r.position
    → IsInOrder (past ++ m ∷ future) (got r (some m)).1
got-IsInOrder past future m r p s c = record {
  past = past ++ m ∷ [];
  future = future;
  split = sym (append_assoc past (m ∷ []) future);
  position = omega (arith, length-append-one past m, p);
  seen = Sub-snoc m s;
  counts = omega (arith, length-append-one r.seen m, c);
}

-- The next message, if there is one.
next_message :
    {M : Type 0} (sent past future : List M) (r : Receiver M)
    → sent ≡ past ++ future
    → length past ≡ r.position
    → Sub r.seen past
    → length r.seen + r.lost ≡ r.position
    → (get_elem? sent r.position ≡ none)
      ⊎ ((m : M) × (get_elem? sent r.position ≡ some m) × IsInOrder sent (got r (some m)).1)
next_message sent past [] r e p s c =
    inl (
      ap (get_elem? sent) (sym p)
      ∙ ap (λ t. get_elem? t (length past)) e
      ∙ get_elem?-append past [])
next_message sent past (m ∷ future) r e p s c = inr (
  m,
  ap (get_elem? sent) (sym p)
      ∙ ap (λ t. get_elem? t (length past)) e
      ∙ get_elem?-append past (m ∷ future),
  subst (λ t. IsInOrder t (got r (some m)).1) (sym e) (got-IsInOrder past future m r p s c),
)

pub recv-cases :
    {M : Type 0} (sent : List M) (r : Receiver M)
    → IsInOrder sent r
    → (get_elem? sent r.position ≡ none)
      ⊎ ((m : M) × (get_elem? sent r.position ≡ some m) × IsInOrder sent (got r (some m)).1)
recv-cases sent r h = next_message sent h.past h.future r h.split h.position h.seen h.counts

split_at :
    {M : Type 0} (n : ℕ) (ms : List M)
    → n ≤ length ms
    → (before : List M) × (after : List M) × (ms ≡ before ++ after) × (length before ≡ n)
split_at zero ms h = ([], ms, refl, refl)
split_at (suc n) [] h = absurd (omega (arith, h))
split_at (suc n) (m ∷ ms) h =
    let (before, after, e, l) = split_at n ms (omega (arith, h)) in
    (m ∷ before, after, ap (λ t. m ∷ t) e, ap suc l)

leb-true : {a b : ℕ} → leb a b ≡ true → a ≤ b
leb-true h = ground arith

pub lag-IsInOrder :
    {M : Type 0} (sent : List M) (n : ℕ) (r : Receiver M)
    → IsInOrder sent r
    → IsInOrder sent (lag sent n r)
unfolding lag
lag-IsInOrder sent n r h =
    if-elim-with (IsInOrder sent) (leb (r.position + n) (length sent)) (λ e. skipped e) (λ e. h)
  where
    skipped :
        leb (r.position + n) (length sent) ≡ true
        → IsInOrder sent (record r { position = r.position + n; lost = r.lost + n })
    skipped e =
        let (before, after, f, l) = split_at n h.future (
          omega
            (arith, leb-true e, ap length h.split, length-append h.past h.future, h.position)) in
        record {
          past = h.past ++ before;
          future = after;
          split = h.split ∙ ap (λ t. h.past ++ t) f ∙ sym (append_assoc h.past before after);
          position = omega (arith, length-append h.past before, h.position, l);
          seen = Sub-more before h.seen;
          counts = omega (arith, h.counts);
        }

pub seen-lag : {M : Type 0} (sent : List M) (n : ℕ) (r : Receiver M) → (lag sent n r).seen ≡ r.seen
unfolding lag
seen-lag sent n r = ground arith
