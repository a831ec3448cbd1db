-- ===== src/Sniper/Handlers.antt =====
-- The entry actions and the state handlers of
-- src/strategies/sniper_strategy/agent/agent_state_machine.rs.
use foxfire_sniper.Base.{
  ℕ, ◌+◌, ◌-◌, ◌/◌, ◌%◌, ltb, leb, ◌==◌, Bool, true, false, ◌&&◌, ◌||◌, Option, none, some, [], ◌∷◌,
  if◌then◌else◌, Outcome, done, ◌>>=◌, unwrap, contains, find, put_key, erase_key,
}
use foxfire_sniper.Types.{
  Uuid, Amount, exact, max, max_and_close, ExecutionResult, sent, execution_error,
  SolanaStrategyEvent, original, heart_beat, blockchain_event, execution_result, execution_receipt,
  raydium_heartbeat_price_update, raydium_swap_event, RaydiumPoolPriceUpdate, SwapMethod,
  buy_tokens_for_exact_sol, sell_exact_tokens_for_sol, new_action, swap,
  retries_if_error_or_timeout, ℤ, pos, negsuc, as_u64, as_u128, u64_mod,
}
use foxfire_sniper.Accounts
use foxfire_sniper.Statechart.{Response, handled, super, transition, Chart}
use foxfire_sniper.Orders.{
  Orders, ReceiptOutcome, confirmed, not_ours, rejected, settle, queue_action,
  process_execution_receipt, is_cooled_down_before_retry,
}
use foxfire_sniper.Sniper.Floats.{Floats}
use foxfire_sniper.Sniper.State.{
  SniperAgentState, SniperEnv, State, waiting_to_buy, buying, waiting_to_sell, selling,
  done_sniping, error, executing_action, processing_receipt, action_timeout, to_liquidity_keys,
  with_orders,
}

unfoldable pub retry_or : State → State → ℕ → Response State
retry_or retry_action last retry =
    transition (if leb retry retries_if_error_or_timeout then retry_action else last)

-- `x as i64 == 0`, of the delay.
abbrev is_zero : ℤ → Bool
is_zero (pos n) = n == 0
is_zero (negsuc n) = false

-- The price update that an event carries, if it carries one.
abbrev pub price_of : {F : Type 0} → SolanaStrategyEvent F → Option (RaydiumPoolPriceUpdate F)
price_of (original (blockchain_event (raydium_heartbeat_price_update u))) = some u
price_of (original (blockchain_event (raydium_swap_event u))) = some u
price_of _ = none

module _ (fl : Floats) where
  open fl use {F, lt, mul, sub, div, lit, to_u64}

  abbrev Agent : Type 0
  Agent = SniperAgentState F

  abbrev Answer : Type 0
  Answer = Outcome (Agent × Response State)

  on_execution_result : Uuid → ExecutionResult → State → ℕ → Agent → Agent × Response State
  unfolding with_orders
  on_execution_result action_uuid sent retry_action retry a =
      if contains action_uuid a.orders.actions_in_progress
      then (with_orders (settle action_uuid a.orders) a, super)
      else (a, super)
  on_execution_result action_uuid (execution_error e) retry_action retry a =
      if contains action_uuid a.orders.actions_in_progress
      then (
        with_orders (settle action_uuid a.orders) a,
        retry_or retry_action (error (executing_action e)) retry,
      )
      else (a, super)

  on_receipt : State → State → ℕ → Agent → Orders × ReceiptOutcome → Agent × Response State
  unfolding with_orders
  on_receipt on_success retry_action retry a (o, confirmed) =
      (with_orders o a, transition on_success)
  on_receipt on_success retry_action retry a (o, not_ours) = (with_orders o a, super)
  on_receipt on_success retry_action retry a (o, rejected) =
      (with_orders o a, retry_or retry_action (error processing_receipt) retry)

  on_heart_beat : SniperEnv F → ℕ → State → ℕ → Agent → Answer
  unfolding with_orders
  on_heart_beat env tick_ms retry_action retry a = do
    (o, cooled) ← is_cooled_down_before_retry env.base tick_ms a.orders
    done (
      with_orders o a,
      if cooled then retry_or retry_action (error action_timeout) retry else super,
    )

  unfoldable pub conditional_transition :
      SniperEnv F → SolanaStrategyEvent F → State → State → ℕ → Agent → Answer
  unfolding on_execution_result on_receipt on_heart_beat retry_or settle process_execution_receipt
  conditional_transition env (original (execution_result u r)) retry_action on_success retry a =
      done (on_execution_result u r retry_action retry a)
  conditional_transition env (original (blockchain_event (execution_receipt r))) retry_action
        on_success retry a =
      done (on_receipt on_success retry_action retry a (process_execution_receipt r a.orders))
  conditional_transition env (original (heart_beat tick_ms)) retry_action on_success retry a =
      on_heart_beat env tick_ms retry_action retry a
  conditional_transition env event retry_action on_success retry a = done (a, super)

  -- The purchase comes once the delay is over.
  unfoldable pub ready_to_buy : SniperEnv F → Agent → Bool
  ready_to_buy env a =
      is_zero a.instance_of.buy_delay_ms
      || ltb (as_u128 a.instance_of.buy_delay_ms) (env.base.now - a.buy_delay_timer)

  unfoldable pub price_dropped : RaydiumPoolPriceUpdate F → Agent → Bool
  price_dropped u a =
      (u.pool == a.pool.id)
      && lt a.instance_of.skip_if_price_drops_percent
          (div (mul (lit 100) (sub a.deploy_price.price u.price)) a.deploy_price.price)

  skip_if : Bool → Response State
  skip_if true = transition done_sniping
  skip_if false = super

  on_waiting_to_buy : SniperEnv F → SolanaStrategyEvent F → Agent → Response State
  unfolding ready_to_buy price_dropped skip_if
  on_waiting_to_buy env event a =
      if ready_to_buy env a
      then transition (buying (exact (to_u64 (mul a.instance_of.size_sol (lit 1000000000)))) 0)
      else (elim (price_of event) [ none ↦ super | some u ↦ skip_if (price_dropped u a) ])

  -- Below the stop loss, or above the target.
  unfoldable pub leaves_range : RaydiumPoolPriceUpdate F → Agent → Bool
  leaves_range u a =
      (u.pool == a.pool.id)
      && (lt u.price (mul a.buy_price.price a.instance_of.stop_loss_percent_move_down)
          || lt (mul a.buy_price.price a.instance_of.take_profit_percent_move_up) u.price)

  unfoldable pub held_s : SniperEnv F → Agent → ℕ
  held_s env a = (env.base.now - a.when_bought_timer) / 1000

  -- The time of the last report: `elapsed - self.last_time > 1`, on u64.
  reported : ℕ → Agent → Agent
  reported elapsed a =
      if ltb 1 ((elapsed + u64_mod - a.last_time) % u64_mod)
      then record a { last_time = elapsed }
      else a

  price_leaves : Option (RaydiumPoolPriceUpdate F) → Agent → Bool
  unfolding leaves_range
  price_leaves none a = false
  price_leaves (some u) a = leaves_range u a

  unfoldable pub on_waiting_to_sell :
      SniperEnv F → SolanaStrategyEvent F → Agent → Agent × Response State
  unfolding price_leaves held_s reported
  on_waiting_to_sell env event a =
      if ltb (as_u64 a.instance_of.force_exit_horizon_s) (held_s env a)
      then (a, transition (selling max_and_close 0))
      else if price_leaves (price_of event) a
      then (a, transition (selling max 0))
      else (reported (held_s env a) a, super)

  swap_for : SniperEnv F → SwapMethod → Amount → Agent → Agent
  unfolding with_orders
  swap_for env swap_method amt a =
      with_orders
        (queue_action env.base
          (new_action env.base.fresh env.base.now a.agent_key (
            swap (record {
              keys = to_liquidity_keys a.pool;
              swap_method = swap_method;
              amount_in = amt;
              min_amount_out = 0;
            })
            ∷ []))
          a.orders)
        a

  refresh_pool : SniperEnv F → Agent → Agent
  refresh_pool env a = elim env.pool_details [
    | none ↦ a
    | some pool_info ↦ record a { target_pools = put_key a.pool.id pool_info a.target_pools }
  ]

  refresh_price : SniperEnv F → Agent → Agent
  refresh_price env a = elim env.pool_price [
    | none ↦ a
    | some pool_price ↦ record a {
      target_pools_prices = put_key a.pool.id pool_price a.target_pools_prices;
    }
  ]

  -- The price of the purchase is read back from the table: without an entry the agent panics.
  unfoldable pub set_when_bought_timer : SniperEnv F → Agent → Outcome Agent
  unfolding refresh_pool refresh_price
  set_when_bought_timer env a = do
    let a' = refresh_price env (refresh_pool env a)
    price ← unwrap (find a'.pool.id a'.target_pools_prices)
    done (record a' { when_bought_timer = env.base.now; buy_price = price })

  unfoldable pub stop_monitoring : SniperEnv F → Agent → Agent
  stop_monitoring env a =
      let ata = env.base.associated_token_address a.agent_key a.pool.base_mint in
      let o = a.orders in
      record a {
        target_pools = erase_key a.pool.id a.target_pools;
        orders = record o {
          shared = record (o.shared) {
            accounts =
                Accounts.stop_monitoring_account ata
                  (Accounts.stop_monitoring_account a.agent_key o.shared.accounts);
          };
        };
      }

  unfoldable pub enter : SniperEnv F → State → Agent → Outcome Agent
  unfolding swap_for set_when_bought_timer stop_monitoring
  enter env waiting_to_buy a = done (record a { buy_delay_timer = env.base.now })
  enter env (buying amt retry) a = done (swap_for env buy_tokens_for_exact_sol amt a)
  enter env waiting_to_sell a = set_when_bought_timer env a
  enter env (selling amt retry) a = done (swap_for env sell_exact_tokens_for_sol amt a)
  enter env done_sniping a = done (stop_monitoring env a)
  enter env (error msg) a = done a

  unfoldable pub respond : SniperEnv F × SolanaStrategyEvent F → State → Agent → Answer
  unfolding on_waiting_to_buy on_waiting_to_sell conditional_transition
  respond (env, event) waiting_to_buy a = done (a, on_waiting_to_buy env event a)
  respond (env, event) (buying amt retry) a =
      conditional_transition env event (buying amt (retry + 1)) waiting_to_sell retry a
  respond (env, event) waiting_to_sell a = done (on_waiting_to_sell env event a)
  respond (env, event) (selling amt retry) a =
      conditional_transition env event (selling max (retry + 1)) done_sniping (retry + 1) a
  respond (env, event) done_sniping a = done (a, handled)
  respond (env, event) (error msg) a = done (a, handled)

  unfoldable pub chart : Chart Agent State (SniperEnv F × SolanaStrategyEvent F)
  unfolding respond enter
  chart = record { respond = respond; enter = λ e s a. enter e.0 s a; leave = λ e s a. done a }
