-- ===== src/Engine.antt =====
-- src/engine.rs: the events and actions between collectors, aggregators, strategies and executors.
use foxfire_sniper.Base.{
  ℕ, zero, suc, ◌+◌, leb, ◌==◌, Bool, true, false, Option, none, some, List, [], ◌∷◌, ◌++◌, length,
  get_elem?, if◌then◌else◌,
}
pub mod Order
pub mod Tasks
pub mod Runs

-- One receiver of a channel: how many messages are behind it, those that it got, and how many of the
-- others it lost because it was too slow.
pub record Receiver (M : Type 0) : Type 0 where
  pub position : ℕ
  pub seen : List M
  pub lost : ℕ

abbrev pub subscribed : {M : Type 0} → Receiver M
subscribed = record { position = 0; seen = []; lost = 0 }

abbrev pub got : {M : Type 0} → Receiver M → Option M → Option M × Receiver M
got r none = (none, r)
got r (some m) = (some m, record r { position = r.position + 1; seen = r.seen ++ m ∷ [] })

-- `recv()` where there is a message, over all that were sent; the receiver waits where there is none.
unfoldable pub recv : {M : Type 0} → List M → Receiver M → Option M × Receiver M
recv sent r = got r (get_elem? sent r.position)

-- `recv()` where the channel has dropped the next n messages: an error, and the loop goes on.
unfoldable pub lag : {M : Type 0} → List M → ℕ → Receiver M → Receiver M
lag sent n r =
    if leb (r.position + n) (length sent)
    then record r { position = r.position + n; lost = r.lost + n }
    else r

abbrev pub erase : {M : Type 0} → List M → ℕ → List M
erase [] k = []
erase (m ∷ ms) zero = ms
erase (m ∷ ms) (suc k) = m ∷ erase ms k

-- A table of tasks with one entry changed.
abbrev pub put_at : {B : Type 0} → ℕ → B → (ℕ → B) → ℕ → B
put_at i b table j = if j == i then b else table j

pub record Executor (A : Type 0) : Type 0 where
  pub receiver : Receiver A
  pub running : List A
  pub finished : List A

pub record Aggregator (E S : Type 0) : Type 0 where
  pub receiver : Receiver E
  pub state : S

-- All that was sent on the two channels, the oldest first, and the tasks by their numbers.
pub record Engine (E A S : Type 0) : Type 0 where
  pub events : List E
  pub actions : List A
  pub aggregators : ℕ → Aggregator E S
  pub executors : ℕ → Executor A

-- A collector sends an event; an aggregator or an executor receives or lags; a strategy sends an
-- action; a task of an executor ends, with an event or an error.
pub data Step (E A : Type 0) : Type 0 where
  collected : E → Step E A
  aggregated : ℕ → Step E A
  aggregator_lags : ℕ → ℕ → Step E A
  decided : A → Step E A
  received : ℕ → Step E A
  executor_lags : ℕ → ℕ → Step E A
  executed : ℕ → ℕ → Option E → Step E A

abbrev pub reported : {E : Type 0} → Option E → List E
reported none = []
reported (some e) = e ∷ []

module _ {E A S : Type 0} (aggregate_event : ℕ → E → S → S × List E) where
  abbrev pub aggregate : ℕ → Aggregator E S → Option E × Receiver E → Engine E A S → Engine E A S
  aggregate i g (none, r) s = s
  aggregate i g (some e, r) s =
      let (state', derived) = aggregate_event i e g.state in
      record s {
        events = s.events ++ derived;
        aggregators = put_at i (record { receiver = r; state = state' }) s.aggregators;
      }

  abbrev pub spawn : ℕ → Executor A → Option A × Receiver A → Engine E A S → Engine E A S
  spawn i x (none, r) s = s
  spawn i x (some a, r) s = record s {
    executors = put_at i (record x { receiver = r; running = x.running ++ a ∷ [] }) s.executors;
  }

  -- The k-th of the running tasks ends, the one of the action that is given.
  abbrev pub finish : ℕ → ℕ → Option E → Executor A → Option A → Engine E A S → Engine E A S
  finish i k result x none s = s
  finish i k result x (some a) s = record s {
    events = s.events ++ reported result;
    executors =
        put_at i (record x { running = erase x.running k; finished = x.finished ++ a ∷ [] })
          s.executors;
  }

  unfoldable pub step : Step E A → Engine E A S → Engine E A S
  unfolding recv lag
  step (collected e) s = record s { events = s.events ++ e ∷ [] }
  step (aggregated i) s = aggregate i (s.aggregators i) (recv s.events (s.aggregators i).receiver) s
  step (aggregator_lags i n) s =
      let g = s.aggregators i in
      record s {
        aggregators = put_at i (record g { receiver = lag s.events n g.receiver }) s.aggregators;
      }
  step (decided a) s = record s { actions = s.actions ++ a ∷ [] }
  step (received i) s = spawn i (s.executors i) (recv s.actions (s.executors i).receiver) s
  step (executor_lags i n) s =
      let x = s.executors i in
      record s {
        executors = put_at i (record x { receiver = lag s.actions n x.receiver }) s.executors;
      }
  step (executed i k result) s =
      let x = s.executors i in finish i k result x (get_elem? x.running k) s

  unfoldable pub run : List (Step E A) → Engine E A S → Engine E A S
  unfolding step
  run [] s = s
  run (t ∷ ts) s = run ts (step t s)

  -- `Engine::run`: nothing was sent yet.
  unfoldable pub started : (ℕ → S) → Engine E A S
  started state = record {
    events = [];
    actions = [];
    aggregators = λ i. record { receiver = subscribed; state = state i };
    executors = λ i. record { receiver = subscribed; running = []; finished = [] };
  }
