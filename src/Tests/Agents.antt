-- ===== src/Tests/Agents.antt =====
-- Runs of the agent of src/strategies/volume_strategy/agent/agent_state_machine.rs.
use foxfire_sniper.Base.{
  ℕ, ◌+◌, ◌≤◌, ◌≡◌, refl, true, none, some, List, [], ◌∷◌, done, arith, returns, contains, length,
}
use foxfire_sniper.Types.{
  Uuid, max, ExecutionReceipt, SolanaStrategyEvent, original, for_agent, blockchain_event,
  execution_receipt, execution_result, sent, heart_beat, collect, deactivate,
  SolanaTransferActionPayload, sol, transfer_batch,
}
use foxfire_sniper.Accounts.{not_found}
use foxfire_sniper.Statechart.{Library, step}
use foxfire_sniper.Statechart.Runs.{run}
use foxfire_sniper.Orders.{Env, Shared, settle, queue_action}
use foxfire_sniper.Agent.State.{AgentState, idle, buying, collecting, deactivating}
use foxfire_sniper.Agent.Handlers.{chart, respond}
use foxfire_sniper.Agent.Entry.{enter, transfer_action}
use foxfire_sniper.Agent.Retries.{retries, run-retries}
use foxfire_sniper.Agent.Receipts.{sent-receipt_lost, step-verdict, verdict}
use foxfire_sniper.Agent.Ordering.{Generates, step-Generates}
use foxfire_sniper.Agent.MainWallet.{IsMain, run-IsMain}
use foxfire_sniper.Agent.Totality.{step-returns}
use foxfire_sniper.Agent.Cycle.{deactivating_cycle, refused}

-- At `now`, with the next identifier `fresh`; the node knows no account.
abbrev pub env_at : ℕ → Uuid → Env
env_at now fresh = record {
  now = now;
  fresh = fresh;
  rpc = λ key. not_found;
  associated_token_address = λ wallet mint. wallet + 1000;
  db_available = true;
}

abbrev pub no_shared : Shared
no_shared = record {
  generated = [];
  all_system_actions = record { capacity = 8; deque = []; entries = [] };
  accounts = [];
  inactive = [];
}

-- The agent 1 of the strategy 5 under the wallet 2, with the order 7 in progress.
abbrev pub agent : AgentState
agent = record {
  agent_key = 1;
  main_wallet = some 2;
  strategy_id_opt = some 5;
  pool = record { base_mint = 30; quote_mint = 31 };
  orders = record {
    actions_in_progress = 7 ∷ [];
    timeout_timer = record { lap_ticks = 200; start_ms = 0 };
    shared = no_shared;
  };
}

-- The main wallet 2.
abbrev pub wallet : AgentState
wallet = record agent { agent_key = 2; main_wallet = none; strategy_id_opt = none }

abbrev pub library : Library (chart {F = ℕ})
library = record { handle = step chart; handle_law = λ e c s. refl }

abbrev receipt : ExecutionReceipt
receipt = record { action_uuid = 7; transaction_signature = 99; err = some 3 }

abbrev confirmation : ExecutionReceipt
confirmation = record { action_uuid = 7; transaction_signature = 99; err = none }

abbrev on_receipt : ExecutionReceipt → SolanaStrategyEvent ℕ
on_receipt r = original (blockchain_event (execution_receipt r))

sent-receipt_lost_example :
    run chart library
      ((env_at 10 8, original (execution_result 7 sent))
        ∷ (env_at 20 9, on_receipt confirmation)
        ∷ [])
      (agent, buying max 0)
    ≡ done (record agent { orders = settle 7 agent.orders }, buying max 0)
sent-receipt_lost_example =
    sent-receipt_lost ℕ library (env_at 10 8) (env_at 20 9) confirmation (buying max 0) agent tt
      refl

step-verdict_example : buying max 3 ≡ verdict (buying max 3) 2 (some 3)
unfolding step respond enter chart
step-verdict_example = step-verdict ℕ (env_at 10 8) receipt (buying max 2) agent tt refl refl

run-retries_example : retries (buying max 2) ≤ 3
unfolding run step respond enter chart queue_action
run-retries_example =
    run-retries library
      ((env_at 10 8, on_receipt receipt)
        ∷ (env_at 20 7, on_receipt (record receipt { action_uuid = 8 }))
        ∷ [])
      (agent, buying max 0) (omega arith) refl

run-IsMain_example : IsMain (wallet, idle) × (wallet.agent_key ≡ wallet.agent_key)
unfolding run step respond enter chart
run-IsMain_example =
    run-IsMain library ((env_at 10 8, for_agent deactivate) ∷ (env_at 20 8, for_agent collect) ∷ [])
      (wallet, buying max 0) (record { no_strategy = refl; no_main = refl; alive = λ h. h }) refl

abbrev asked : List SolanaTransferActionPayload
asked = record { asset = sol; receiver = 2; amount = max } ∷ []

step-Generates_example :
    Generates (env_at 10 8) agent (transfer_action (env_at 10 8) asked agent) true
unfolding step respond enter chart
step-Generates_example =
    step-Generates {F = ℕ} (env_at 10 8) (for_agent (transfer_batch asked)) idle agent refl refl

step-returns_example :
    returns (step (chart {F = ℕ}) (env_at 500 8, original (heart_beat 2)) (agent, collecting 1))
    ≡ true
step-returns_example =
    step-returns (env_at 500 8) (original (heart_beat 2)) (collecting 1) agent 2 refl (omega arith)

deactivating_cycle_example :
    (b : AgentState) × (run
        (chart {F = ℕ})
        library
        (refused (env_at 10 8) 7 3
          ∷ refused (env_at 20 9) 8 3
          ∷ refused (env_at 30 10) 9 3
          ∷ refused (env_at 40 11) 10 3
          ∷ (env_at 50 12, original (heart_beat 2))
          ∷ [])
        (agent, deactivating 0)
      ≡ done (b, deactivating 0))
    × (contains 12 b.orders.actions_in_progress ≡ true)
    × (length b.orders.shared.generated ≡ 4)
    × (b.main_wallet ≡ some 2)
    × (b.strategy_id_opt ≡ some 5)
deactivating_cycle_example =
    deactivating_cycle ℕ library (env_at 10 8) (env_at 20 9) (env_at 30 10) (env_at 40 11)
      (env_at 50 12) 7 3 (original (heart_beat 2)) agent 2 5 refl refl refl
