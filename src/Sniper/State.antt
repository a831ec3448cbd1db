-- ===== src/Sniper/State.antt =====
-- The sniper's settings (src/types/sniping_strategy.rs), the state of an agent and the states of its
-- machine (src/strategies/sniper_strategy/agent/agent_state_machine.rs).
use foxfire_sniper.Base.{ℕ, Bool, Option, List, []}
use foxfire_sniper.Types.{
  Pubkey, Amount, ExecutionError, ℤ, RaydiumPool, RaydiumPoolPriceUpdate, LiquidityPoolKeys,
  timeout_for_action_execution_hbs,
}
use foxfire_sniper.Stopwatch
use foxfire_sniper.Accounts
use foxfire_sniper.Orders.{Env, Orders, Shared}

pub record SnipingStrategyInstance (F : Type 0) : Type 0 where
  pub id : ℕ
  pub size_sol : F
  pub stop_loss_percent_move_down : F
  pub take_profit_percent_move_up : F
  pub force_exit_horizon_s : ℤ
  pub max_simultaneous_snipes : ℤ
  pub min_pool_liquidity_sol : F
  pub skip_pump_fun : Bool
  pub skip_mintable : Bool
  pub buy_delay_ms : ℤ
  pub skip_if_price_drops_percent : F

-- The instants are clock readings in milliseconds. `target_pools` and `target_pools_prices` are the
-- tables of the shared cache.
pub record SniperAgentState (F : Type 0) : Type 0 where
  pub agent_key : Pubkey
  pub pool : RaydiumPool
  pub instance_of : SnipingStrategyInstance F
  pub orders : Orders
  pub buy_delay_timer : ℕ
  pub when_bought_timer : ℕ
  pub deploy_price : RaydiumPoolPriceUpdate F
  pub buy_price : RaydiumPoolPriceUpdate F
  pub last_time : ℕ
  pub target_pools : List (Pubkey × RaydiumPool)
  pub target_pools_prices : List (Pubkey × RaydiumPoolPriceUpdate F)

pub data Failure : Type 0 where
  executing_action : ExecutionError → Failure
  processing_receipt : Failure
  action_timeout : Failure

-- `done_sniping` is `State::Done`.
pub data State : Type 0 where
  waiting_to_buy : State
  buying : Amount → ℕ → State
  waiting_to_sell : State
  selling : Amount → ℕ → State
  done_sniping : State
  error : Failure → State

-- The environment also answers for the pool: its details and its price, or an error.
pub record SniperEnv (F : Type 0) : Type 0 where
  pub base : Env
  pub pool_details : Option RaydiumPool
  pub pool_price : Option (RaydiumPoolPriceUpdate F)

-- `self.pool.to_liquidity_keys()`, of which the two mints are read.
abbrev pub to_liquidity_keys : RaydiumPool → LiquidityPoolKeys
to_liquidity_keys p = record { base_mint = p.base_mint; quote_mint = p.quote_mint }

module _ {F : Type 0} where
  -- `new`: both balances are queried, for their effect on the account table. `default_price` is the
  -- derived default of a price.
  unfoldable pub new :
      Env
      → SnipingStrategyInstance F
      → Pubkey
      → RaydiumPool
      → RaydiumPoolPriceUpdate F
      → RaydiumPoolPriceUpdate F
      → List (Pubkey × RaydiumPool)
      → List (Pubkey × RaydiumPoolPriceUpdate F)
      → Shared
      → SniperAgentState F
  unfolding Stopwatch.new
  new env settings agent_key pool deploy_price default_price pools prices shared =
      let (queried, _) = Accounts.get_balance env.rpc agent_key shared.accounts in
      let (both, _) =
        Accounts.get_token_balance env.rpc (env.associated_token_address agent_key pool.base_mint)
          queried in
      record {
        agent_key = agent_key;
        pool = pool;
        instance_of = settings;
        orders = record {
          actions_in_progress = [];
          timeout_timer = Stopwatch.new env.now timeout_for_action_execution_hbs;
          shared = record shared { accounts = both };
        };
        buy_delay_timer = env.now;
        when_bought_timer = env.now;
        deploy_price = deploy_price;
        buy_price = default_price;
        last_time = 0;
        target_pools = pools;
        target_pools_prices = prices;
      }

  unfoldable pub with_orders : Orders → SniperAgentState F → SniperAgentState F
  with_orders o a = record a { orders = o }
