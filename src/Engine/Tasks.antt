-- ===== src/Engine/Tasks.antt =====
-- One aggregator and one executor of src/engine.rs, and their tables.
use mathlib.Core.List.{Perm, perm_append_singleton, perm_middle}
use mathlib.Core.List.Perm
use foxfire_sniper.Base.{
  ℕ, zero, suc, ◌≡◌, refl, sym, subst, ◌==◌, some, List, [], ◌∷◌, ◌++◌, get_elem?, if-elim-with,
  ==_iff,
}
use foxfire_sniper.Engine.{subscribed, erase, put_at, Executor, Aggregator}
use foxfire_sniper.Engine.Order.{nothing, IsInOrder, sent-IsInOrder}

pub put_at-holds :
    {B : Type 0} (P : ℕ → B → Type 0) (i : ℕ) (b : B) (table : ℕ → B)
    → P i b
    → ((j : ℕ) → P j (table j))
    → (j : ℕ) → P j (put_at i b table j)
put_at-holds P i b table here rest j =
    if-elim-with (P j) (j == i) (λ e. subst (λ k. P k b) (sym ((==_iff j i).0 e)) here)
      (λ e. rest j)

-- What is taken out and the rest are the whole list.
pub erase-perm :
    {M : Type 0} (ms : List M) (k : ℕ) {m : M} → get_elem? ms k ≡ some m → Perm (m ∷ erase ms k) ms
erase-perm [] k h = cc
erase-perm (n ∷ ms) zero {m} h =
    subst (λ x. Perm (m ∷ ms) (x ∷ ms)) (let e : m ≡ n = cc in e) (Perm.refl (m ∷ ms))
erase-perm (n ∷ ms) (suc k) {m} h =
    Perm.trans (Perm.swap n m (erase ms k)) (Perm.cons n (erase-perm ms k h))

-- An action that comes in is one more at the end of both.
pub spawned-perm :
    {M : Type 0} (running finished seen : List M) (m : M)
    → Perm (running ++ finished) seen
    → Perm ((running ++ m ∷ []) ++ finished) (seen ++ m ∷ [])
spawned-perm running finished seen m h =
    Perm.trans
      (Perm.trans (Perm.append_right finished (perm_append_singleton m running)) (Perm.cons m h))
      (Perm.symm (perm_append_singleton m seen))

-- One of the running goes over to the finished.
pub finished-perm :
    {M : Type 0} (running finished seen : List M) (k : ℕ) {m : M}
    → get_elem? running k ≡ some m
    → Perm (running ++ finished) seen
    → Perm (erase running k ++ (finished ++ m ∷ [])) seen
finished-perm running finished seen k {m} e h =
    let rest = erase running k in
    Perm.trans (Perm.append_left rest (perm_append_singleton m finished)) (
      Perm.trans (perm_middle rest finished)
        (Perm.trans (Perm.append_right finished (erase-perm running k e)) h))

-- The executor got its actions in the order of the channel, and those of the
-- tasks that run and of those that have ended are together just the ones it got.
pub record Executes {A : Type 0} (actions : List A) (x : Executor A) : Type 0 where
  pub in_order : IsInOrder actions x.receiver
  pub each : Perm (x.running ++ x.finished) x.receiver.seen

pub none_sent : {M : Type 0} → IsInOrder {M = M} [] subscribed
none_sent = record {
  past = [];
  future = [];
  split = refl;
  position = refl;
  seen = nothing;
  counts = refl;
}

module _ {E S : Type 0} (aggregate_event : ℕ → E → S → S × List E) where
  -- The state of the i-th aggregator after some events.
  abbrev pub after : ℕ → S → List E → S
  after i state [] = state
  after i state (e ∷ es) = after i (aggregate_event i e state).0 es

  pub after-snoc :
      (i : ℕ) (state : S) (es : List E) (e : E)
      → after i state (es ++ e ∷ []) ≡ (aggregate_event i e (after i state es)).0
  after-snoc i state [] e = refl
  after-snoc i state (d ∷ es) e = after-snoc i (aggregate_event i d state).0 es e

  -- The aggregator got its events in the order of the channel, and its state is what they make of the
  -- first one.
  pub record Aggregates (first : S) (i : ℕ) (events : List E) (g : Aggregator E S) : Type 0 where
    pub in_order : IsInOrder events g.receiver
    pub state : g.state ≡ after i first g.receiver.seen

  pub Aggregates-more :
      (first : S) (i : ℕ) (events more : List E) (g : Aggregator E S)
      → Aggregates first i events g
      → Aggregates first i (events ++ more) g
  Aggregates-more first i events more g h = record {
    in_order = sent-IsInOrder events more g.receiver h.in_order;
    state = h.state;
  }
