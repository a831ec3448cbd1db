-- ===== src/Tests/Sweeps.antt =====
-- Runs of src/strategies/sweeper_strategy/strategy_state_machine.rs.
use foxfire_sniper.Base.{ℕ, refl, [], ◌∷◌}
use foxfire_sniper.Statechart.{step}
use foxfire_sniper.Agent.State.{success, error, action_timeout}
use foxfire_sniper.Agent.Handlers.{chart as agent_chart}
use foxfire_sniper.Sweeper.Machine.{SweeperStrategy, get_execution_status, chart, sell_token}
use foxfire_sniper.Sweeper.Progress.{SomeSuccess, AllEnded, step-swept}
use foxfire_sniper.Tests.Agents.{agent, wallet, library, no_shared}
use foxfire_sniper.Tests.Volumes.{world, beat, strategy}

abbrev sweeper : SweeperStrategy
sweeper = record {
  instance_of = strategy.instance_of;
  pool = strategy.pool;
  main_wallet = (wallet, success);
  agents = (agent, success) ∷ (agent, error action_timeout) ∷ [];
  shared = no_shared;
}

step-swept_example : SomeSuccess sweeper.agents × AllEnded sweeper.agents
unfolding step chart get_execution_status sell_token agent_chart
step-swept_example = step-swept ℕ library (world, beat) sweeper _ refl

abbrev failing : SweeperStrategy
failing = record sweeper { agents = (agent, error action_timeout) ∷ [] }
