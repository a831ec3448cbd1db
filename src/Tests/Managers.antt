-- ===== src/Tests/Managers.antt =====
-- Runs of src/strategies/solana_strategy_manager.rs and of the hand-over of actions.
use foxfire_sniper.Base.{ℕ, ◌≡◌, refl, true, false, none, some, [], ◌∷◌, has_key, arith}
use foxfire_sniper.Types.{SolanaAction}
use foxfire_sniper.Statechart.{Library, step}
use foxfire_sniper.Volume.State.{VolumeStrategy, State, sleeping}
use foxfire_sniper.Volume.Machine.{chart}
use foxfire_sniper.Tests.Agents.{library}
use foxfire_sniper.Tests.Volumes.{strategy}
use foxfire_sniper.Manager.Registry.{
  volume_strategy, sniper_strategy, sweeper_strategy, Manager, Host, drop_strategy,
}
use foxfire_sniper.Manager.Runner.{Runner, on_changed, wake}
use foxfire_sniper.Manager.Agreement.{IsCached, IsInStep, on_changed-IsInStep, drop_strategy-stops}

abbrev pub host : Host
host = record {
  connects = true;
  inserted_id = some 4;
  updates = true;
  constructs = true;
  default_hasher = λ n. n;
  random = 0;
}

-- A volume strategy that is completed, one that is not, and a sniper in the place of a sweeper.
abbrev pub manager : Manager
manager = record {
  strategies =
      (4, volume_strategy 4 (some 9)) ∷ (5, volume_strategy 5 none) ∷ (6, sniper_strategy 6) ∷ [];
  notified = false;
  completed_rows = [];
}

abbrev runner : Runner
runner = record {
  running_strategies = (4, volume_strategy 4 none) ∷ (6, sweeper_strategy 9) ∷ [];
  cached_strategies_ids = 4 ∷ 6 ∷ [];
}

runner-IsCached : IsCached runner
runner-IsCached id = ground arith

on_changed-IsInStep_example :
    IsInStep manager (on_changed manager runner) × IsCached (on_changed manager runner)
on_changed-IsInStep_example = on_changed-IsInStep manager runner runner-IsCached

drop_strategy-stops_example :
    let (m', r') = wake (drop_strategy host 6 manager).0 runner in
    has_key 6 (wake m' r').1.running_strategies ≡ false
drop_strategy-stops_example = drop_strategy-stops host 6 manager runner runner-IsCached refl

-- A purchase that was made before the event.
abbrev left_over : SolanaAction
left_over = record { uuid = 3; sniper = 1; fee_payer = 1; created_at = 0; action_payload = [] }

abbrev generating : VolumeStrategy
generating = record strategy { shared = record (strategy.shared) { generated = left_over ∷ [] } }

abbrev emptied : VolumeStrategy × State
emptied = (record strategy { shared = record (strategy.shared) { generated = [] } }, sleeping)

abbrev charted : Library (chart ℕ library)
charted = record { handle = step (chart ℕ library); handle_law = λ e c s. refl }
