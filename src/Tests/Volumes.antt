-- ===== src/Tests/Volumes.antt =====
-- Runs of the strategy of src/strategies/volume_strategy/strategy_state_machine.rs.
use foxfire_sniper.Base.{ℕ, ◌<◌, ◌≡◌, ◌↔◌, refl, false, none, [], ◌∷◌, done, length}
use foxfire_sniper.Types.{
  max, sol, pos, SolanaTransferActionPayload, SolanaStrategyEvent, original, heart_beat,
}
use foxfire_sniper.Accounts
use foxfire_sniper.Statechart.{step}
use foxfire_sniper.Agent.State.{
  get_token_balance, success, error, collecting, action_timeout, transferring,
}
use foxfire_sniper.Agent.Entry.{transfer_action}
use foxfire_sniper.Volume.State.{World, VolumeStrategy, with_shared}
use foxfire_sniper.Volume.Status.{
  get_execution_status, done_status, pending, AllSuccess, SomeWorking, get_execution_status-done,
  get_execution_status-pending,
}
use foxfire_sniper.Volume.Actions.{collect_token_from_agents, balances}
use foxfire_sniper.Volume.Funding.{send_batches}
use foxfire_sniper.Volume.Machine.{chart}
use foxfire_sniper.Volume.Flow.{step-bought}
use foxfire_sniper.Volume.Dropped.{with_wallet, send_batches-first_only}
use foxfire_sniper.Tests.Agents.{env_at, agent, wallet, library, no_shared}

abbrev pub world : World
world = record { at = λ i. env_at 10 8; shares = λ n total. []; keys = []; traders = none }

-- One agent, that has succeeded; the main wallet is in success.
abbrev pub strategy : VolumeStrategy
strategy = record {
  instance_of = record {
    id = 5;
    tranche_size_lamports = 1000;
    tranche_frequency_hbs = pos 100;
    agents_buying_in_tranche = 1;
    agents_selling_in_tranche = 1;
    agents_keep_tokens_lamports = pos 0;
  };
  pool = record { base_mint = 30; quote_mint = 31 };
  main_wallet = (wallet, success);
  agents = (agent, success) ∷ [];
  stopwatch = record { lap_ticks = 0; start_ms = 0 };
  completed = false;
  shared = no_shared;
}

abbrev pub beat : SolanaStrategyEvent ℕ
beat = original (heart_beat 2)

abbrev payment : SolanaTransferActionPayload
payment = record { asset = sol; receiver = 1; amount = max }

send_batches-first_only_example :
    send_batches ℕ library world 0 ((payment ∷ []) ∷ (payment ∷ []) ∷ []) strategy
    ≡ done (
        with_wallet
          (transfer_action (env_at 10 8) (payment ∷ []) (with_shared no_shared wallet))
          (transferring (payment ∷ []) 0)
          strategy)
send_batches-first_only_example =
    send_batches-first_only ℕ library world (payment ∷ []) ((payment ∷ []) ∷ []) wallet success
      strategy refl tt

abbrev failing : VolumeStrategy
failing = record strategy { main_wallet = (wallet, error action_timeout) }

get_execution_status-done_example :
    (get_execution_status strategy.agents ≡ done_status)
    ↔ ((0 < length strategy.agents) × AllSuccess strategy.agents)
get_execution_status-done_example = get_execution_status-done strategy.agents

get_execution_status-pending_example :
    (get_execution_status ((agent, error action_timeout) ∷ (agent, collecting 1) ∷ []) ≡ pending)
    ↔ SomeWorking ((agent, error action_timeout) ∷ (agent, collecting 1) ∷ [])
get_execution_status-pending_example =
    get_execution_status-pending ((agent, error action_timeout) ∷ (agent, collecting 1) ∷ [])

step-bought_example : (0 < length strategy.agents) × AllSuccess strategy.agents
unfolding step chart get_execution_status collect_token_from_agents balances get_token_balance
    Accounts.get_token_balance
step-bought_example = step-bought ℕ library (world, beat) strategy _ refl
