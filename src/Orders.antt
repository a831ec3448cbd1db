-- ===== src/Orders.antt =====
-- What an agent keeps of the actions it asked for, and the stores it shares with the others: the
-- methods `queue_action`, `process_execution_receipt` and `is_cooled_down_before_retry` of
-- src/strategies/volume_strategy/agent/agent_state_machine.rs, which
-- src/strategies/sniper_strategy/agent/agent_state_machine.rs repeats word for word.
pub mod Laws
use foxfire_sniper.Base.{
  ℕ, Bool, true, false, Option, none, some, List, ◌∷◌, [], ◌++◌, if◌then◌else◌, Outcome, done,
  panic, ◌>>=◌, contains, without,
}
use foxfire_sniper.Types.{
  Pubkey, Uuid, SolanaAction, ExecutionReceipt, timeout_for_action_execution_hbs,
}
use foxfire_sniper.Stopwatch
use foxfire_sniper.Stopwatch.{Stopwatch}
use foxfire_sniper.Cache.CircularBuffer.{CircularBuffer}
use foxfire_sniper.Cache.Operational.{register_action}
use foxfire_sniper.Accounts.{Accounts, RpcAnswer}

-- What the environment answers while one event is handled: the clock in milliseconds, a new action
-- identifier, the RPC node, the address of a token account, and whether the database connects.
pub record Env : Type 0 where
  pub now : ℕ
  pub fresh : Uuid
  pub rpc : Pubkey → RpcAnswer
  pub associated_token_address : Pubkey → Pubkey → Pubkey
  pub db_available : Bool

-- The stores behind `Arc`: the actions that the strategy hands to the executor next, the action
-- and account tables of the cache, and the wallets whose row in `traders` was set inactive.
pub record Shared : Type 0 where
  pub generated : List SolanaAction
  pub all_system_actions : CircularBuffer SolanaAction
  pub accounts : Accounts
  pub inactive : List Pubkey

pub record Orders : Type 0 where
  pub actions_in_progress : List Uuid
  pub timeout_timer : Stopwatch
  pub shared : Shared

unfoldable pub queue_action : Env → SolanaAction → Orders → Orders
unfolding Stopwatch.start
queue_action env action o = record o {
  actions_in_progress = o.actions_in_progress ++ action.uuid ∷ [];
  timeout_timer = Stopwatch.start env.now timeout_for_action_execution_hbs o.timeout_timer;
  shared = record (o.shared) {
    all_system_actions = register_action action o.shared.all_system_actions;
    generated = o.shared.generated ++ action ∷ [];
  };
}

-- `Ok(Some(()))`, `Ok(None)` and `Err(_)`
pub data ReceiptOutcome : Type 0 where
  confirmed not_ours rejected : ReceiptOutcome

-- `actions_in_progress.retain(|&x| x != uuid)`
unfoldable pub settle : Uuid → Orders → Orders
settle uuid o = record o { actions_in_progress = without uuid o.actions_in_progress }

read_receipt : Option ℕ → Orders → Orders × ReceiptOutcome
unfolding Stopwatch.turn_off
read_receipt (some err) o =
    (record o { timeout_timer = Stopwatch.turn_off o.timeout_timer }, rejected)
read_receipt none o = (o, confirmed)

unfoldable pub process_execution_receipt : ExecutionReceipt → Orders → Orders × ReceiptOutcome
unfolding settle read_receipt
process_execution_receipt receipt o =
    if contains receipt.action_uuid o.actions_in_progress
    then read_receipt receipt.err (settle receipt.action_uuid o)
    else (o, not_ours)

unfoldable pub is_cooled_down_before_retry : Env → ℕ → Orders → Outcome (Orders × Bool)
unfolding Stopwatch.turn_off
is_cooled_down_before_retry env tick_ms o = do
  elapsed ← Stopwatch.is_time_elapsed env.now o.timeout_timer tick_ms
  done (
      if elapsed
      then (record o { timeout_timer = Stopwatch.turn_off o.timeout_timer }, true)
      else (o, false))
