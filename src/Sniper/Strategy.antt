-- ===== src/Sniper/Strategy.antt =====
-- src/strategies/sniper_strategy/strategy_state_machine.rs and strategy.rs: the snipes of one
-- strategy, by pool. The handler of a new pool spawns a task that adds the snipe later, and
-- `on_dispatch` spawns one that hands the event to the snipes: such tasks run between events.
pub mod Limit
pub mod Dispatch
pub mod Process
pub mod Reach
use foxfire_sniper.Base.{
  ℕ, ltb, leb, Bool, true, false, ◌&&◌, Option, none, some, List, [], ◌∷◌, ◌++◌, if◌then◌else◌,
  length, has_key, put_key, erase_key, Outcome, done, panic, ◌>>=◌,
}
use foxfire_sniper.Types.{
  Pubkey, SolanaAction, BotEvent, heart_beat, blockchain_event, raydium_new_pool_event,
  BlockchainEvent, RaydiumPool, RaydiumPoolPriceUpdate, SolanaStrategyEvent, original, as_u64,
}
use foxfire_sniper.Orders.{Shared}
use foxfire_sniper.Statechart.{Library}
use foxfire_sniper.Sniper.Floats.{Floats}
use foxfire_sniper.Sniper.State.{
  SnipingStrategyInstance, SniperAgentState, SniperEnv, State, done_sniping, error, waiting_to_buy,
  new,
}
use foxfire_sniper.Sniper.Handlers.{chart}

-- What the RPC node says of the token of a new pool, and whether the pool's name has `pump` in it.
-- A failed query panics (`unwrap`).
pub record Mint : Type 0 where
  pub name_has_pump : Bool
  pub account_data : Bool
  pub freezable : Option Bool
  pub mintable : Option Bool

-- `pending` are the spawned tasks that have not run: the pools to add, oldest first. `shared`,
-- `target_pools` and `target_pools_prices` are stores of the cache, which every snipe has a copy of
-- that is replaced before it works and taken back afterwards.
pub record SniperStrategy (F : Type 0) : Type 0 where
  pub instance_of : SnipingStrategyInstance F
  pub sniper_wallet : Pubkey
  pub pool_snipes : List (Pubkey × (SniperAgentState F × State))
  pub pending : List (RaydiumPool × RaydiumPoolPriceUpdate F)
  pub default_price : RaydiumPoolPriceUpdate F
  pub shared : Shared
  pub target_pools : List (Pubkey × RaydiumPool)
  pub target_pools_prices : List (Pubkey × RaydiumPoolPriceUpdate F)

-- Why a new pool is left alone.
pub data Verdict : Type 0 where
  captured pump_fun freezable mintable illiquid busy start : Verdict

module _ (fl : Floats) where
  open fl use {F, lt}

  -- The tests of `running`, in their order.
  late_tests : RaydiumPoolPriceUpdate F → SniperStrategy F → Verdict
  late_tests price st =
      if lt price.quote_reserve st.instance_of.min_pool_liquidity_sol
      then illiquid
      else if leb (as_u64 st.instance_of.max_simultaneous_snipes) (length st.pool_snipes)
      then busy
      else start

  test_mintable : Option Bool → RaydiumPoolPriceUpdate F → SniperStrategy F → Outcome Verdict
  unfolding late_tests
  test_mintable (some true) price st = done mintable
  test_mintable (some false) price st = done (late_tests price st)
  test_mintable none price st = panic

  test_freezable :
      Option Bool → Mint → RaydiumPoolPriceUpdate F → SniperStrategy F → Outcome Verdict
  unfolding test_mintable late_tests
  test_freezable (some true) m price st = done freezable
  test_freezable (some false) m price st =
      if st.instance_of.skip_mintable
      then test_mintable m.mintable price st
      else done (late_tests price st)
  test_freezable none m price st = panic

  unfoldable pub judge :
      Mint → RaydiumPool → RaydiumPoolPriceUpdate F → SniperStrategy F → Outcome Verdict
  unfolding test_freezable
  judge m pool price st =
      if has_key pool.id st.pool_snipes
      then done captured
      else if st.instance_of.skip_pump_fun && m.name_has_pump
      then done pump_fun
      else if m.account_data
      then test_freezable m.freezable m price st
      else panic

  obey : RaydiumPool → RaydiumPoolPriceUpdate F → SniperStrategy F → Verdict → SniperStrategy F
  obey pool price st start = record st { pending = st.pending ++ (pool, price) ∷ [] }
  obey pool price st _ = st

  -- `running`, on a new pool; on any other event it does nothing.
  unfoldable pub on_new_pool :
      Mint → RaydiumPool → RaydiumPoolPriceUpdate F → SniperStrategy F → Outcome (SniperStrategy F)
  unfolding judge obey
  on_new_pool m pool price st = do v ← judge m pool price st; done (obey pool price st v)

  -- The spawned task: the agent is made and put in the table, over one that is there.
  spawn_each :
      SniperEnv F
      → List (RaydiumPool × RaydiumPoolPriceUpdate F)
      → SniperStrategy F
      → SniperStrategy F
  unfolding new
  spawn_each env [] st = st
  spawn_each env ((pool, price) ∷ rest) st =
      let a =
        new env.base st.instance_of st.sniper_wallet pool price st.default_price st.target_pools
          st.target_pools_prices st.shared in
      record st {
        pool_snipes = put_key pool.id (a, waiting_to_buy) st.pool_snipes;
        pending = rest;
        shared = a.orders.shared;
      }

  unfoldable pub run_spawned : SniperEnv F → SniperStrategy F → SniperStrategy F
  unfolding spawn_each
  run_spawned env st = spawn_each env st.pending st

  -- The end of the task of `on_dispatch`: the snipes that are done or failed leave the table.
  unfoldable pub ended : State → Bool
  ended done_sniping = true
  ended (error _) = true
  ended _ = false

  keep_live :
      List (Pubkey × (SniperAgentState F × State)) → List (Pubkey × (SniperAgentState F × State))
  unfolding ended
  keep_live [] = []
  keep_live ((k, (a, s)) ∷ m) =
      let rest = keep_live m in if ended s then rest else (k, (a, s)) ∷ rest

  unfoldable pub remove_ended : SniperStrategy F → SniperStrategy F
  unfolding keep_live
  remove_ended st = record st { pool_snipes = keep_live st.pool_snipes }
