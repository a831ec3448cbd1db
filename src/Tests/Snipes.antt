-- ===== src/Tests/Snipes.antt =====
-- Runs of the snipes of src/strategies/sniper_strategy.
use foxfire_sniper.Base.{
  ℕ, ◌+◌, ◌-◌, ◌*◌, ◌/◌, ◌≡◌, refl, true, false, none, some, [], ◌∷◌, done, ltb, arith,
}
use foxfire_sniper.Types.{
  max, pos, SolanaStrategyEvent, original, blockchain_event, execution_receipt, RaydiumPool,
  RaydiumPoolPriceUpdate, raydium_swap_event, raydium_new_pool_event,
}
use foxfire_sniper.Statechart.{Library, step}
use foxfire_sniper.Sniper.Floats.{Floats}
use foxfire_sniper.Sniper.State.{SnipingStrategyInstance, SniperAgentState, SniperEnv, selling}
use foxfire_sniper.Sniper.Handlers.{chart}
use foxfire_sniper.Sniper.Trades.{Decides, step-waiting_to_sell}
use foxfire_sniper.Sniper.Strategy.{SniperStrategy, Mint, on_new_pool, run_spawned}
use foxfire_sniper.Sniper.Strategy.Limit.{WithinLimit}
use foxfire_sniper.Sniper.Strategy.Process.{forwards, process_event}
use foxfire_sniper.Sniper.Strategy.Reach.{processed, spawned, here, then_on, Reaches-WithinLimit}
use foxfire_sniper.Tests.Agents.{env_at, no_shared}

-- Whole prices.
abbrev pub whole : Floats
whole = record {
  F = ℕ;
  lt = ltb;
  mul = λ x y. x * y;
  add = λ x y. x + y;
  sub = λ x y. x - y;
  div = λ x y. x / y;
  lit = λ n. n;
  to_u64 = λ x. x;
}

abbrev library : Library (chart whole)
library = record { handle = step (chart whole); handle_law = λ e c s. refl }

abbrev pool : RaydiumPool
pool = record { id = 40; base_mint = 30; quote_mint = 31 }

abbrev price_at : ℕ → RaydiumPoolPriceUpdate ℕ
price_at x = record { pool = 40; price = x; base_reserve = 1; quote_reserve = 50 }

abbrev settings : SnipingStrategyInstance ℕ
settings = record {
  id = 5;
  size_sol = 2;
  stop_loss_percent_move_down = 0;
  take_profit_percent_move_up = 2;
  force_exit_horizon_s = pos 60;
  max_simultaneous_snipes = pos 1;
  min_pool_liquidity_sol = 10;
  skip_pump_fun = true;
  skip_mintable = true;
  buy_delay_ms = pos 0;
  skip_if_price_drops_percent = 5;
}

abbrev snipe : SniperAgentState ℕ
snipe = record {
  agent_key = 1;
  pool = pool;
  instance_of = settings;
  orders = record {
    actions_in_progress = 7 ∷ [];
    timeout_timer = record { lap_ticks = 200; start_ms = 0 };
    shared = no_shared;
  };
  buy_delay_timer = 0;
  when_bought_timer = 0;
  deploy_price = price_at 10;
  buy_price = price_at 10;
  last_time = 0;
  target_pools = [];
  target_pools_prices = [];
}

abbrev snipe_env : SniperEnv ℕ
snipe_env = record { base = env_at 10 8; pool_details = some pool; pool_price = some (price_at 12) }

abbrev confirmation : SolanaStrategyEvent ℕ
confirmation = original (
    blockchain_event
      (execution_receipt (record { action_uuid = 7; transaction_signature = 99; err = none })))

step-waiting_to_sell_example :
    Decides whole snipe_env
      (original (blockchain_event (raydium_swap_event (price_at 30))))
      snipe
      (selling max 0)
unfolding step chart
step-waiting_to_sell_example =
    step-waiting_to_sell whole snipe_env
      (original (blockchain_event (raydium_swap_event (price_at 30)))) snipe refl

abbrev mint : Mint
mint = record {
  name_has_pump = false;
  account_data = true;
  freezable = some false;
  mintable = some false;
}

abbrev strategy : SniperStrategy ℕ
strategy = record {
  instance_of = settings;
  sniper_wallet = 1;
  pool_snipes = [];
  pending = [];
  default_price = price_at 0;
  shared = no_shared;
  target_pools = [];
  target_pools_prices = [];
}

abbrev grown : SniperStrategy ℕ
grown = record strategy { pending = (pool, price_at 10) ∷ [] }

listed :
    process_event whole mint (blockchain_event (raydium_new_pool_event pool (price_at 10))) strategy
    ≡ done (grown, [])
unfolding process_event forwards on_new_pool
listed = refl

-- A new pool is found, and its snipe is added to the table.
Reaches-WithinLimit_example : WithinLimit whole (run_spawned whole snipe_env grown)
Reaches-WithinLimit_example =
    Reaches-WithinLimit whole library
      (then_on strategy grown _
        (processed mint (blockchain_event (raydium_new_pool_event pool (price_at 10))) strategy
          grown [] refl listed)
        (then_on grown _ _ (spawned snipe_env grown) (here _)))
      (record { bounded = omega arith })
