-- ===== src/Manager/Agreement.antt =====
-- The tasks of `run_strategy_manager` against the strategies of the table.
use foxfire_sniper.Base.{
  if-cases, ◌≡◌, refl, sym, ap, subst, ◌∙◌, Bool, true, false, ◌&&◌, ◌||◌, some, List, [], ◌∷◌,
  if◌then◌else◌, find, has_key, erase_key, contains, arith, ◌⊎◌, inl, inr,
}
use foxfire_sniper.Manager.Identifiers.{
  StrategyId, sort, same_ids, contains-sort, same_ids-contains,
}
use foxfire_sniper.Manager.Registry.{
  Strategy, Strategies, Manager, Host, drop_strategy, get_active_strategies, active_of,
}
use foxfire_sniper.Manager.Runner.{
  Runner, keys, start_missing, stopped_ids, retain, on_changed, wake,
}

contains-keys : (id : StrategyId) (m : Strategies) → contains id (keys m) ≡ has_key id m
contains-keys id [] = refl
contains-keys id ((k, v) ∷ m) = ground (arith, contains-keys id m)

stopped_ids-empty : (m : Strategies) → stopped_ids m ≡ []
stopped_ids-empty [] = refl
stopped_ids-empty ((k, v) ∷ m) = stopped_ids-empty m

has_key-start_missing :
    (id : StrategyId) (current tasks : Strategies)
    → has_key id (start_missing current tasks) ≡ (has_key id tasks || has_key id current)
unfolding start_missing
has_key-start_missing id [] tasks = ground arith
has_key-start_missing id ((k, v) ∷ current) tasks =
    let rest =
      has_key-start_missing id current (if has_key k tasks then tasks else (k, v) ∷ tasks) in
    ground (arith, rest)

has_key-retain :
    (id : StrategyId) (current tasks : Strategies)
    → has_key id (retain current [] tasks) ≡ (has_key id tasks && has_key id current)
unfolding retain
has_key-retain id current [] = refl
has_key-retain id current ((k, v) ∷ tasks) = ground (arith, has_key-retain id current tasks)

find-start_missing :
    (id : StrategyId) (s : Strategy) (current tasks : Strategies)
    → find id tasks ≡ some s
    → find id (start_missing current tasks) ≡ some s
unfolding start_missing
find-start_missing id s [] tasks h = h
find-start_missing id s ((k, v) ∷ current) tasks h =
    find-start_missing id s current _ (ground arith)

find-retain :
    (id : StrategyId) (s : Strategy) (current tasks : Strategies)
    → has_key id current ≡ true
    → find id tasks ≡ some s
    → find id (retain current [] tasks) ≡ some s
unfolding retain
find-retain id s current [] e h = h
find-retain id s current ((k, v) ∷ tasks) e h = ground (arith, find-retain id s current tasks)

-- The tasks are those of the identifiers seen last.
abbrev pub IsCached : Runner → Type 0
IsCached r =
    (id : StrategyId) → has_key id r.running_strategies ≡ contains id r.cached_strategies_ids

-- Exactly the active strategies have a task.
abbrev pub IsInStep : Manager → Runner → Type 0
IsInStep m r =
    (id : StrategyId) → has_key id r.running_strategies ≡ has_key id (get_active_strategies m)

-- The tasks after a change that is not skipped.
abbrev restarted : Manager → List StrategyId → Runner → Runner
restarted m to_stop r =
    let current = get_active_strategies m in
    record {
      running_strategies = retain current to_stop (start_missing current r.running_strategies);
      cached_strategies_ids = sort (keys current);
    }

changed :
    (m : Manager) (r : Runner)
    → ((same_ids (sort (keys (get_active_strategies m))) r.cached_strategies_ids ≡ true)
        × (on_changed m r ≡ r))
      ⊎ (on_changed m r ≡ restarted m [] r)
unfolding on_changed
changed m r =
    let current = get_active_strategies m in
    elim (if-cases (same_ids (sort (keys current)) r.cached_strategies_ids) r
      (restarted m (stopped_ids current) r)) [
        | inl e ↦ inl e
        | inr (_, e) ↦ inr (e ∙ ap (λ ids. restarted m ids r) (stopped_ids-empty current))
      ]

restarted-IsInStep : (m : Manager) (r : Runner) → IsInStep m (restarted m [] r)
restarted-IsInStep m r id =
    let current = get_active_strategies m in
    ground (
      arith,
      has_key-retain id current (start_missing current r.running_strategies),
      has_key-start_missing id current r.running_strategies,
    )

restarted-IsCached : (m : Manager) (r : Runner) → IsCached (restarted m [] r)
restarted-IsCached m r id =
    let current = get_active_strategies m in
    restarted-IsInStep m r id ∙ sym (contains-sort id (keys current) ∙ contains-keys id current)

-- One change brings the tasks in step with the table: if the tasks are those of the identifiers seen
-- last, then after the handling of a change, skipped or not, exactly the active strategies have a
-- task, and the tasks are again those of the identifiers seen last.
pub on_changed-IsInStep :
    (m : Manager) (r : Runner)
    → IsCached r
    → IsInStep m (on_changed m r) × IsCached (on_changed m r)
on_changed-IsInStep m r c = elim (changed m r) [
  | inl (same, e) ↦
      let ids = sort (keys (get_active_strategies m)) in
      let step : IsInStep m r = λ id.
        c id
        ∙ sym (same_ids-contains id ids r.cached_strategies_ids same)
        ∙ contains-sort id (keys (get_active_strategies m))
        ∙ contains-keys id (get_active_strategies m) in
      (subst (IsInStep m) (sym e) step, subst IsCached (sym e) c)
  | inr e ↦ (
    subst (IsInStep m) (sym e) (restarted-IsInStep m r),
    subst IsCached (sym e) (restarted-IsCached m r),
  )
]

-- A task that is there is kept, with the strategy it was started for, as long as the identifier is
-- that of an active strategy: one that replaced it in the table under the same identifier is not
-- started.
pub on_changed-keeps :
    (m : Manager) (r : Runner) (id : StrategyId) (s : Strategy)
    → find id r.running_strategies ≡ some s
    → has_key id (get_active_strategies m) ≡ true
    → find id (on_changed m r).running_strategies ≡ some s
on_changed-keeps m r id s task active = elim (changed m r) [
  | inl (_, e) ↦ subst (λ x. find id x.running_strategies ≡ some s) (sym e) task
  | inr e ↦
      let current = get_active_strategies m in
      subst (λ x. find id x.running_strategies ≡ some s) (sym e)
        (find-retain id s current (start_missing current r.running_strategies) active
          (find-start_missing id s current r.running_strategies task))
]

has_key-active_erased :
    (id : StrategyId) (m : Strategies) → has_key id (active_of (erase_key id m)) ≡ false
has_key-active_erased id [] = refl
has_key-active_erased id ((k, v) ∷ m) = ground (arith, has_key-active_erased id m)

abbrev manager_of : Strategies → Bool → List StrategyId → Manager
manager_of strategies notified rows = record {
  strategies = strategies;
  notified = notified;
  completed_rows = rows;
}

woken :
    (strategies : Strategies) (notified : Bool) (rows : List StrategyId) (r : Runner)
    → IsCached r
    → let m = manager_of strategies notified rows in
      let (m', r') = wake m r in IsInStep m (wake m' r').1
unfolding wake get_active_strategies
woken strategies true rows r c = (on_changed-IsInStep (manager_of strategies true rows) r c).0
woken strategies false rows r c = (on_changed-IsInStep (manager_of strategies false rows) r c).0

-- Two wakes of the loop handle a change.
wake_twice :
    (m : Manager) (r : Runner) → IsCached r → let (m', r') = wake m r in IsInStep m (wake m' r').1
wake_twice m r c = woken m.strategies m.notified m.completed_rows r c

dropped_inactive :
    (host : Host) (id : StrategyId) (m : Manager)
    → has_key id m.strategies ≡ true
    → has_key id (get_active_strategies (drop_strategy host id m).0) ≡ false
unfolding drop_strategy get_active_strategies
dropped_inactive host id m there = ground (arith, has_key-active_erased id m.strategies)

-- A strategy that is dropped stops: whatever `drop_strategy` answers, if the strategy was in the
-- table, then after the next two wakes of the loop, at most three seconds apart, no task has its
-- identifier, although the call notifies no one.
pub drop_strategy-stops :
    (host : Host) (id : StrategyId) (m : Manager) (r : Runner)
    → IsCached r
    → has_key id m.strategies ≡ true
    → let dropped = (drop_strategy host id m).0 in
      let (m', r') = wake dropped r in has_key id (wake m' r').1.running_strategies ≡ false
drop_strategy-stops host id m r c there =
    wake_twice (drop_strategy host id m).0 r c id ∙ dropped_inactive host id m there
