-- ===== src/Manager/Registry.antt =====
-- src/strategies/solana_strategy_manager.rs: the table of the strategies.
use foxfire_sniper.Base.{
  ℕ, Bool, true, false, Option, none, some, List, [], ◌∷◌, if◌then◌else◌, Outcome, done, panic,
  find, erase_key, put_key,
}
use foxfire_sniper.Manager.Identifiers.{StrategyId, hash_i32_to_i32}

-- The strategies by what `downcast_ref` tells apart. An instance has the identifier of its row; that
-- of a volume strategy may be completed.
pub data Strategy : Type 0 where
  volume_strategy : ℕ → Option ℕ → Strategy
  sweeper_strategy : ℕ → Strategy
  sniper_strategy : ℕ → Strategy
  other_strategy : Strategy

abbrev pub Strategies : Type 0
Strategies = List (StrategyId × Strategy)

-- `strategies`, whether `strategy_notify` holds a change, and the rows of the volume strategies
-- that were set completed.
pub record Manager : Type 0 where
  pub strategies : Strategies
  pub notified : Bool
  pub completed_rows : List StrategyId

-- What the environment answers to one call: whether the database connects, the identifier of an
-- inserted row and whether the update succeeds, whether the constructor of a strategy succeeds, the
-- hash of the standard library and a random number.
pub record Host : Type 0 where
  pub connects : Bool
  pub inserted_id : Option StrategyId
  pub updates : Bool
  pub constructs : Bool
  pub default_hasher : ℕ → ℕ
  pub random : ℕ

-- `Ok(_)` and `Err(_)`, with the manager as it is left.
pub data Reply (A : Type 0) : Type 0 where
  ok : A → Reply A
  err : Reply A

abbrev pub started : StrategyId → Strategy → Manager → Manager × Reply StrategyId
started id strategy m =
    (record m { strategies = put_key id strategy m.strategies; notified = true }, ok id)

abbrev pub start_volume : Host → Option ℕ → Option StrategyId → Manager → Manager × Reply StrategyId
start_volume host completed_at none m = (m, err)
start_volume host completed_at (some strat_id) m =
    if host.constructs then started strat_id (volume_strategy strat_id completed_at) m else (m, err)

unfoldable pub start_strategy : Host → Strategy → Manager → Outcome (Manager × Reply StrategyId)
unfolding hash_i32_to_i32
start_strategy host (volume_strategy _ completed_at) m =
    if host.connects then done (start_volume host completed_at host.inserted_id m) else panic
start_strategy host (sweeper_strategy id) m = done (
    if host.constructs
    then started (hash_i32_to_i32 host.default_hasher id) (sweeper_strategy id) m
    else (m, err))
start_strategy host (sniper_strategy id) m =
    done (if host.constructs then started id (sniper_strategy id) m else (m, err))
start_strategy host other_strategy m =
    done (started (hash_i32_to_i32 host.default_hasher host.random) other_strategy m)

-- Every strategy leaves DestroyStrategy unread, and the actions that `process_event` returns are
-- dropped.
unfoldable pub drop_strategy : Host → StrategyId → Manager → Manager × Reply Bool
drop_strategy host strat_id m =
    let removed = record m { strategies = erase_key strat_id m.strategies } in
    elim (find strat_id m.strategies) [
      | none ↦ (m, err)
      | some _ ↦
          if host.connects
          then if host.updates
            then (record removed { completed_rows = strat_id ∷ m.completed_rows }, ok true)
            else (removed, err)
          else (removed, err)
    ]

abbrev pub is_active : Strategy → Bool
is_active (volume_strategy _ (some _)) = false
is_active _ = true

abbrev pub active_of : Strategies → Strategies
active_of [] = []
active_of ((k, v) ∷ m) = let rest = active_of m in if is_active v then (k, v) ∷ rest else rest

unfoldable pub get_active_strategies : Manager → Strategies
get_active_strategies m = active_of m.strategies

-- The part of `sync_state` on the rows that are not completed: `constructs` tells for each whether
-- `VolumeStrategy::new` succeeds; the first failure ends the call.
unfoldable pub sync_state : (StrategyId → Bool) → List StrategyId → Manager → Manager × Reply Bool
sync_state constructs [] m = (m, ok true)
sync_state constructs (id ∷ ids) m =
    let rest = sync_state constructs ids (started id (volume_strategy id none) m).0 in
    if constructs id then rest else (m, err)
