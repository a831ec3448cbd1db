-- ===== src/Sweeper/Dispatch.antt =====
-- The task that `on_dispatch` of src/strategies/sweeper_strategy/strategy_state_machine.rs spawns, and
-- `drop`. The agents that the source works with at the same time are worked with one after the other.
use foxfire_sniper.Base.{[], Outcome, done, ◌>>=◌}
use foxfire_sniper.Types.{SolanaStrategyEvent, for_agent, deactivate}
use foxfire_sniper.Statechart.{Library}
use foxfire_sniper.Agent.Handlers.{chart as agent_chart}
use foxfire_sniper.Volume.State.{World, handle}
use foxfire_sniper.Volume.Actions.{each_agent}
use foxfire_sniper.Sweeper.Machine.{SweeperStrategy}

module _ (F : Type 0) (lib : Library (agent_chart {F = F})) where
  -- The main wallet, then the agents, take the event. It is modelled for a task that ends before the
  -- strategy lists its agents again.
  unfoldable pub deliver : World → SolanaStrategyEvent F → SweeperStrategy → Outcome SweeperStrategy
  unfolding handle each_agent
  deliver w event st = do
    (m, shared) ← handle F lib (w.at 0) event st.shared st.main_wallet
    (ms, shared') ←
        each_agent F lib (λ env shared m. handle F lib env event shared m) w 1 st.agents shared
    done (record st { main_wallet = m; agents = ms; shared = shared' })

  -- `drop`: every agent is told to deactivate, and the list is cleared.
  unfoldable pub drop : World → SweeperStrategy → Outcome SweeperStrategy
  unfolding handle each_agent
  drop w st = do
    (_, shared) ←
        each_agent F lib (λ env shared m. handle F lib env (for_agent deactivate) shared m) w 0
          st.agents st.shared
    done (record st { agents = []; shared = shared })
