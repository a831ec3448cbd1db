-- ===== src/Agent/Handlers.antt =====
-- The state handlers of src/strategies/volume_strategy/agent/agent_state_machine.rs.
use foxfire_sniper.Base.{ℕ, ◌+◌, leb, ◌==◌, not, if◌then◌else◌, Outcome, done, ◌>>=◌, contains}
use foxfire_sniper.Types.{
  Uuid, ExecutionResult, sent, execution_error, SolanaStrategyEvent, original, for_agent,
  heart_beat, blockchain_event, execution_result, execution_receipt, buy, sell, transfer_batch,
  collect, deactivate, retries_if_error_or_timeout,
}
use foxfire_sniper.Statechart.{Response, handled, super, transition, Chart}
use foxfire_sniper.Orders.{
  Env, Orders, ReceiptOutcome, confirmed, not_ours, rejected, settle, process_execution_receipt,
  is_cooled_down_before_retry,
}
use foxfire_sniper.Agent.State.{
  AgentState, State, idle, transferring, collecting, buying, selling, success, error, deactivating,
  deactivated, deactivated_main_wallet, executing_action, processing_receipt, action_timeout,
  is_main_wallet, get_main_wallet,
}
use foxfire_sniper.Agent.Entry.{enter}

abbrev pub Answer : Type 0
Answer = Outcome (AgentState × Response State)

abbrev with_orders : AgentState → Orders → AgentState
with_orders a o = record a { orders = o }

-- `if *retry <= RETRIES_IF_ERROR_OR_TIMEOUT { Transition(retry_action) } else { .. }`
unfoldable pub retry_or : State → State → ℕ → Response State
retry_or retry_action last retry =
    transition (if leb retry retries_if_error_or_timeout then retry_action else last)

on_execution_result : Uuid → ExecutionResult → State → ℕ → AgentState → AgentState × Response State
on_execution_result action_uuid sent retry_action retry a =
    if contains action_uuid a.orders.actions_in_progress
    then (with_orders a (settle action_uuid a.orders), super)
    else (a, super)
on_execution_result action_uuid (execution_error e) retry_action retry a =
    if contains action_uuid a.orders.actions_in_progress
    then (
      with_orders a (settle action_uuid a.orders),
      retry_or retry_action (error (executing_action e)) retry,
    )
    else (a, super)

-- `accepted` is where a confirmation leads.
on_receipt : State → State → ℕ → AgentState → Orders × ReceiptOutcome → AgentState × Response State
on_receipt accepted retry_action retry a (o, confirmed) = (with_orders a o, transition accepted)
on_receipt accepted retry_action retry a (o, not_ours) = (with_orders a o, super)
on_receipt accepted retry_action retry a (o, rejected) =
    (with_orders a o, retry_or retry_action (error processing_receipt) retry)

-- `given_up` is where the last time-out leads.
on_heart_beat : Env → ℕ → State → State → ℕ → AgentState → Answer
on_heart_beat env tick_ms given_up retry_action retry a = do
  (o, cooled) ← is_cooled_down_before_retry env tick_ms a.orders
  done (with_orders a o, if cooled then retry_or retry_action given_up retry else super)

on_deactivate : AgentState → Response State
on_deactivate a =
    transition
      (if get_main_wallet a == a.agent_key then error deactivated_main_wallet else deactivating 0)

module _ {F : Type 0} where
  unfoldable pub transition_to_success_or_error :
      Env → SolanaStrategyEvent F → State → ℕ → AgentState → Answer
  unfolding on_execution_result on_receipt on_heart_beat on_deactivate retry_or settle
      process_execution_receipt get_main_wallet
  transition_to_success_or_error env (for_agent deactivate) retry_action retry a =
      done (a, on_deactivate a)
  transition_to_success_or_error env (original (execution_result u r)) retry_action retry a =
      done (on_execution_result u r retry_action retry a)
  transition_to_success_or_error env (original (blockchain_event (execution_receipt r)))
        retry_action retry a =
      done (on_receipt success retry_action retry a (process_execution_receipt r a.orders))
  transition_to_success_or_error env (original (heart_beat tick_ms)) retry_action retry a =
      on_heart_beat env tick_ms (error action_timeout) retry_action retry a
  transition_to_success_or_error env event retry_action retry a = done (a, super)

  -- The handlers of `idle` and of `success` are the same text.
  unfoldable pub ready : SolanaStrategyEvent F → AgentState → Response State
  unfolding is_main_wallet
  ready (for_agent deactivate) a =
      if not (is_main_wallet a) then transition deactivated else handled
  ready (for_agent (transfer_batch batch)) a = transition (transferring batch 0)
  ready (for_agent collect) a = transition (collecting 0)
  ready (for_agent (buy amt)) a = transition (buying amt 0)
  ready (for_agent (sell amt)) a = transition (selling amt 0)
  ready event a = super

  unfoldable pub on_deactivating : Env → SolanaStrategyEvent F → ℕ → AgentState → Answer
  unfolding on_receipt on_heart_beat retry_or process_execution_receipt
  on_deactivating env (original (blockchain_event (execution_receipt r))) retry a = done (
      on_receipt deactivated (deactivating (retry + 1)) retry a
        (process_execution_receipt r a.orders))
  on_deactivating env (original (heart_beat tick_ms)) retry a =
      on_heart_beat env tick_ms deactivated (deactivating (retry + 1)) retry a
  on_deactivating env event retry a = done (a, super)

  unfoldable pub respond : Env × SolanaStrategyEvent F → State → AgentState → Answer
  unfolding transition_to_success_or_error ready on_deactivating is_main_wallet
  respond (env, event) idle a = done (a, ready event a)
  respond (env, event) (transferring batch retry) a =
      transition_to_success_or_error env event (transferring batch (retry + 1)) retry a
  respond (env, event) (collecting retry) a =
      transition_to_success_or_error env event (collecting (retry + 1)) retry a
  respond (env, event) (buying amt retry) a =
      transition_to_success_or_error env event (buying amt (retry + 1)) retry a
  respond (env, event) (selling amt retry) a =
      transition_to_success_or_error env event (selling amt (retry + 1)) retry a
  respond (env, event) success a = done (a, ready event a)
  respond (env, event) (error msg) a =
      done (a, transition (if is_main_wallet a then idle else deactivating 0))
  respond (env, event) (deactivating retry) a = on_deactivating env event retry a
  respond (env, event) deactivated a = done (a, handled)

  -- The machine of the agent, for the library of state machines. No state has an exit action.
  unfoldable pub chart : Chart AgentState State (Env × SolanaStrategyEvent F)
  unfolding respond enter
  chart = record { respond = respond; enter = λ e s a. enter e.0 s a; leave = λ e s a. done a }
