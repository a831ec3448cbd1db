-- ===== src/Volume/State.antt =====
-- The state of the volume strategy and the makers of its agents, of
-- src/strategies/volume_strategy/strategy_state_machine.rs and agent/agent_state_machine.rs.
use foxfire_sniper.Base.{
  ℕ, Bool, true, false, ◌&&◌, Option, none, some, List, [], if◌then◌else◌, Outcome, done, ◌>>=◌,
}
use foxfire_sniper.Types.{
  Pubkey, ℤ, LiquidityPoolKeys, SolanaStrategyEvent, timeout_for_action_execution_hbs,
}
use foxfire_sniper.Accounts
use foxfire_sniper.Stopwatch
use foxfire_sniper.Stopwatch.{Stopwatch}
use foxfire_sniper.Statechart.{Library}
use foxfire_sniper.Orders.{Env, Shared}
use foxfire_sniper.Agent.State.{AgentState, drop}
use foxfire_sniper.Agent.State.{State as AgentPhase}
use foxfire_sniper.Agent.Handlers.{chart}

-- The agent's machine: its storage and its state.
abbrev pub Machine : Type 0
Machine = AgentState × AgentPhase

-- `tranche_size_lamports` is `sol_to_lamports(tranche_size_sol)`; the numbers of agents are casts.
pub record VolumeStrategyInstance : Type 0 where
  pub id : ℕ
  pub tranche_size_lamports : ℕ
  pub tranche_frequency_hbs : ℤ
  pub agents_buying_in_tranche : ℕ
  pub agents_selling_in_tranche : ℕ
  pub agents_keep_tokens_lamports : ℤ

-- Of a row of `traders`: the wallet, the strategy, whether it is active, and whether its private key
-- can be read.
pub record Trader : Type 0 where
  pub wallet : Pubkey
  pub strategy_instance_id : Option ℕ
  pub is_active : Bool
  pub key_valid : Bool

-- What the environment answers while the strategy handles one event: to the i-th agent it works
-- with (`at i`), the shares of a total for a number of agents (see Utils.Math), the new key pairs
-- with the row of each (none where the database fails), and the rows of `traders` (none where the
-- query fails).
pub record World : Type 0 where
  pub at : ℕ → Env
  pub shares : ℕ → ℕ → List ℕ
  pub keys : List (Pubkey × Option Trader)
  pub traders : Option (List Trader)

-- `shared` stands for the stores behind `Arc`, of which every machine has a copy that is replaced
-- before it works and taken back afterwards.
pub record VolumeStrategy : Type 0 where
  pub instance_of : VolumeStrategyInstance
  pub pool : LiquidityPoolKeys
  pub main_wallet : Machine
  pub agents : List Machine
  pub stopwatch : Stopwatch
  pub completed : Bool
  pub shared : Shared

pub data State : Type 0 where
  sweeping offloading_inventory fund buying collecting_tokens : State
  transferring_token_to_sellers selling collecting_sol sleeping idle error : State

unfoldable pub with_shared : Shared → AgentState → AgentState
with_shared shared a = record a { orders = record (a.orders) { shared = shared } }

module _ (env : Env) (pool : LiquidityPoolKeys) where
  -- The balances are queried for their effect on the account table.
  unfoldable pub monitored : Pubkey → Shared → Shared
  monitored key shared =
      let (queried, _) = Accounts.get_balance env.rpc key shared.accounts in
      let (both, _) =
        Accounts.get_token_balance env.rpc (env.associated_token_address key pool.base_mint)
          queried in
      record shared { accounts = both }

  unfoldable pub fresh_agent : Pubkey → Option ℕ → Option Pubkey → Shared → AgentState
  unfolding Stopwatch.new
  fresh_agent key strategy_id_opt main_wallet shared = record {
    agent_key = key;
    main_wallet = main_wallet;
    strategy_id_opt = strategy_id_opt;
    pool = pool;
    orders = record {
      actions_in_progress = [];
      timeout_timer = Stopwatch.new env.now timeout_for_action_execution_hbs;
      shared = shared;
    };
  }

  has_instance : Trader → Bool
  has_instance t = elim t.strategy_instance_id [ none ↦ false | some _ ↦ true ]

  -- `AgentState::new` of an agent of the strategy `id`, with the row that the database has for it.
  unfoldable pub new : ℕ → Pubkey → Pubkey × Option Trader → Shared → Shared × Option AgentState
  unfolding monitored fresh_agent drop has_instance
  new id main_wallet (key, none) shared = (monitored key shared, none)
  new id main_wallet (key, some t) shared =
      let a = fresh_agent key (some id) (some main_wallet) (monitored key shared) in
      if t.is_active && has_instance t
      then (a.orders.shared, some a)
      else let gone = drop env a in (gone.orders.shared, none)

  unfoldable pub new_from_trader : Trader → Option Pubkey → Shared → Shared × Option AgentState
  unfolding monitored fresh_agent
  new_from_trader t main_wallet shared =
      let after = monitored t.wallet shared in
      if t.key_valid
      then (after, some (fresh_agent t.wallet t.strategy_instance_id main_wallet after))
      else (shared, none)

module _ (F : Type 0) (lib : Library (chart {F = F})) where
  -- A machine is locked and handles an event.
  unfoldable pub handle :
      Env → SolanaStrategyEvent F → Shared → Machine → Outcome (Machine × Shared)
  unfolding with_shared
  handle env event shared (a, s) = do
    m ← lib.handle (env, event) (with_shared shared a, s)
    done (m, m.0.orders.shared)
