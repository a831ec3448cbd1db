-- ===== src/Volume/Machine.antt =====
-- The states of src/strategies/volume_strategy/strategy_state_machine.rs and their transitions. Every
-- state but `idle` and `error` has the superstate `running`, which answers `Handled`.
use foxfire_sniper.Base.{
  ℕ, ◌+◌, Bool, true, false, List, [], ◌∷◌, if◌then◌else◌, Outcome, done, panic, ◌>>=◌,
}
use foxfire_sniper.Types.{as_u64, SolanaStrategyEvent, original, heart_beat}
use foxfire_sniper.Stopwatch
use foxfire_sniper.Statechart.{Response, handled, super, transition, Chart, Library}
use foxfire_sniper.Agent.State.{State as AgentPhase}
use foxfire_sniper.Agent.State as Phase
use foxfire_sniper.Agent.Handlers.{chart as agent_chart}
use foxfire_sniper.Volume.State.{
  Machine, World, VolumeStrategy, State, sweeping, offloading_inventory, fund, buying,
  collecting_tokens, transferring_token_to_sellers, selling, collecting_sol, sleeping, idle, error,
  handle,
}
use foxfire_sniper.Volume.Status.{
  ExecutionStatus, error_status, done_status, pending, get_execution_status,
}
use foxfire_sniper.Volume.Actions.{
  zero_agents, buy_action, collect_sol_from_agents, collect_token_from_agents, sell_action,
  offload_inventory,
}
use foxfire_sniper.Volume.Funding.{
  initialize_agents_with_sol, transfer_token_to_sellers, collect_everything_from_staled_agents,
}

-- `Done` leads to `next`, `Error` to `back`.
unfoldable pub on_status : State → State → ExecutionStatus → Response State
on_status next back done_status = transition next
on_status next back error_status = transition back
on_status next back _ = super

-- As above, and `Idle` leads to `back` as well.
unfoldable pub on_status_or_idle : State → State → ExecutionStatus → Response State
on_status_or_idle next back done_status = transition next
on_status_or_idle next back pending = super
on_status_or_idle next back _ = transition back

unfoldable pub after_offloading : AgentPhase → Response State
after_offloading Phase.success = transition fund
after_offloading (Phase.error _) = transition fund
after_offloading Phase.deactivated = transition fund
after_offloading Phase.idle = transition fund
after_offloading _ = super

unfoldable pub after_funding : AgentPhase → Response State
after_funding Phase.success = transition buying
after_funding (Phase.error _) = transition sweeping
after_funding _ = super

unfoldable pub after_transfer : AgentPhase → Response State
after_transfer Phase.success = transition selling
after_transfer Phase.idle = transition selling
after_transfer (Phase.error _) = transition offloading_inventory
after_transfer Phase.deactivated = transition offloading_inventory
after_transfer _ = super

unfoldable pub wake : Bool → VolumeStrategy → VolumeStrategy × Response State
unfolding Stopwatch.turn_off
wake true st = (record st { stopwatch = Stopwatch.turn_off st.stopwatch }, transition fund)
wake false st = (st, super)

module _ {F : Type 0} where
  unfoldable pub on_sleeping :
      World → SolanaStrategyEvent F → VolumeStrategy → Outcome (VolumeStrategy × Response State)
  unfolding Stopwatch.is_time_elapsed wake
  on_sleeping w (original (heart_beat tick_ms)) st = do
    elapsed ← Stopwatch.is_time_elapsed (w.at 0).now st.stopwatch tick_ms
    done (wake elapsed st)
  on_sleeping w _ st = done (st, super)

  unfoldable pub respond :
      World × SolanaStrategyEvent F
      → State
      → VolumeStrategy
      → Outcome (VolumeStrategy × Response State)
  unfolding on_status on_status_or_idle after_offloading after_funding after_transfer on_sleeping
  respond e sweeping st =
      done
        (st, on_status offloading_inventory offloading_inventory (get_execution_status st.agents))
  respond e offloading_inventory st = done (st, after_offloading st.main_wallet.1)
  respond e fund st = done (st, after_funding st.main_wallet.1)
  respond e buying st =
      done (st, on_status_or_idle collecting_tokens sweeping (get_execution_status st.agents))
  respond e collecting_tokens st =
      done (st, on_status transferring_token_to_sellers sweeping (get_execution_status st.agents))
  respond e transferring_token_to_sellers st = done (st, after_transfer st.main_wallet.1)
  respond e selling st =
      done (st, on_status collecting_sol sweeping (get_execution_status st.agents))
  respond e collecting_sol st =
      done (st, on_status sleeping sweeping (get_execution_status st.agents))
  respond (w, event) sleeping st = on_sleeping w event st
  respond e idle st = done (st, handled)
  respond e error st = done (st, handled)

unfoldable pub leave : World → State → VolumeStrategy → VolumeStrategy
unfolding zero_agents
leave w sweeping st = zero_agents w st
leave w collecting_tokens st = zero_agents w st
leave w collecting_sol st = zero_agents w st
leave w _ st = st

-- `set_sleep_timer_before_selling`
set_sleep_timer : World → VolumeStrategy → VolumeStrategy
unfolding Stopwatch.start
set_sleep_timer w st = record st {
  stopwatch =
      Stopwatch.start (w.at 0).now (as_u64 st.instance_of.tranche_frequency_hbs) st.stopwatch;
}

-- `cleanup`: the call of `drop` is not awaited, so it does nothing.
cleanup : World → VolumeStrategy → Outcome VolumeStrategy
cleanup w st = if (w.at 0).db_available then done (record st { completed = true }) else panic

module _ (F : Type 0) (lib : Library (agent_chart {F = F})) where
  unfoldable pub enter : World → State → VolumeStrategy → Outcome VolumeStrategy
  unfolding set_sleep_timer cleanup
  enter w sweeping st = collect_everything_from_staled_agents F lib w st
  enter w offloading_inventory st = offload_inventory F lib w st
  enter w fund st = initialize_agents_with_sol F lib w st
  enter w buying st = buy_action F lib w st
  enter w collecting_tokens st = collect_token_from_agents F lib w st
  enter w transferring_token_to_sellers st = transfer_token_to_sellers F lib w st
  enter w selling st = sell_action F lib w st
  enter w collecting_sol st = collect_sol_from_agents F lib w st
  enter w sleeping st = done (set_sleep_timer w st)
  enter w idle st = done st
  enter w error st = cleanup w st

  unfoldable pub chart : Chart VolumeStrategy State (World × SolanaStrategyEvent F)
  unfolding respond leave enter
  chart = record {
    respond = respond;
    enter = λ e s st. enter e.0 s st;
    leave = λ e s st. done (leave e.0 s st);
  }

  deliver_each :
      World
      → ℕ
      → SolanaStrategyEvent F
      → List Machine
      → VolumeStrategy
      → Outcome (VolumeStrategy × List Machine)
  unfolding handle
  deliver_each w i event [] st = done (st, [])
  deliver_each w i event (m ∷ ms) st = do
    (m', shared) ← handle F lib (w.at i) event st.shared m
    (st', ms') ← deliver_each w (i + 1) event ms (record st { shared = shared })
    done (st', m' ∷ ms')

  -- The task that `on_dispatch` spawns: the main wallet, then the agents, take the event. It is
  -- modelled for a task that ends before the strategy replaces its agents.
  unfoldable pub deliver : World → SolanaStrategyEvent F → VolumeStrategy → Outcome VolumeStrategy
  unfolding handle deliver_each
  deliver w event st = do
    (m, shared) ← handle F lib (w.at 0) event st.shared st.main_wallet
    (st', ms) ← deliver_each w 1 event st.agents (record st { main_wallet = m; shared = shared })
    done (record st' { agents = ms })
