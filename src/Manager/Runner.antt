-- ===== src/Manager/Runner.antt =====
-- src/strategies/solana_strategy_manager.rs: the loop of `run_strategy_manager`.
use foxfire_sniper.Base.{
  Bool, true, false, not, ◌||◌, List, [], ◌∷◌, if◌then◌else◌, has_key, contains,
}
use foxfire_sniper.Manager.Identifiers.{StrategyId, sort, same_ids}
use foxfire_sniper.Manager.Registry.{Strategy, Strategies, Manager, get_active_strategies}

pub data StrategyStatus : Type 0 where
  running stopped : StrategyStatus

-- Every strategy answers Running.
abbrev pub get_status : Strategy → StrategyStatus
get_status _ = running

abbrev pub is_stopped : StrategyStatus → Bool
is_stopped running = false
is_stopped stopped = true

-- The tasks by their identifiers, each with the strategy that it works for, and the identifiers of
-- the last change.
pub record Runner : Type 0 where
  pub running_strategies : Strategies
  pub cached_strategies_ids : List StrategyId

abbrev pub keys : Strategies → List StrategyId
keys [] = []
keys ((id, _) ∷ rest) = id ∷ keys rest

-- `spawn_strategy` for every strategy that no task has.
unfoldable pub start_missing : Strategies → Strategies → Strategies
start_missing [] tasks = tasks
start_missing ((id, strategy) ∷ rest) tasks =
    start_missing rest (if has_key id tasks then tasks else (id, strategy) ∷ tasks)

abbrev pub stopped_ids : Strategies → List StrategyId
stopped_ids [] = []
stopped_ids ((id, strategy) ∷ rest) =
    let ids = stopped_ids rest in if is_stopped (get_status strategy) then id ∷ ids else ids

-- `retain`: the tasks of strategies that are gone or stopped are aborted.
unfoldable pub retain : Strategies → List StrategyId → Strategies → Strategies
retain current to_stop [] = []
retain current to_stop ((id, task) ∷ tasks) =
    let rest = retain current to_stop tasks in
    if not (has_key id current) || contains id to_stop then rest else (id, task) ∷ rest

-- The branch of `rx.changed()`.
unfoldable pub on_changed : Manager → Runner → Runner
unfolding start_missing retain sort
on_changed m r =
    let current = get_active_strategies m in
    let ids = sort (keys current) in
    if same_ids ids r.cached_strategies_ids then r else record {
      running_strategies =
          retain current (stopped_ids current) (start_missing current r.running_strategies);
      cached_strategies_ids = ids;
    }

-- What the loop can wake up for: a change, which is then seen, or three seconds without one, after
-- which it notifies itself.
unfoldable pub wake : Manager → Runner → Manager × Runner
unfolding on_changed
wake m r =
    if m.notified
    then (record m { notified = false }, on_changed m r)
    else (record m { notified = true }, r)
