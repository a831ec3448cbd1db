-- ===== src/Agent/State.antt =====
-- The state of an agent, the states of its machine and the shared helpers, of
-- src/strategies/volume_strategy/agent/agent_state_machine.rs.
use foxfire_sniper.Base.{ℕ, Bool, true, false, Option, none, some, List, ◌∷◌, if◌then◌else◌}
use foxfire_sniper.Types.{
  Pubkey, Amount, LiquidityPoolKeys, SolanaTransferActionPayload, ExecutionError,
}
use foxfire_sniper.Accounts
use foxfire_sniper.Accounts.{Balance, unwrap_or_zero}
use foxfire_sniper.Orders.{Env, Orders}

-- The key pairs stand for their public keys. The pool is its liquidity keys. A wallet that belongs
-- to no strategy is the main wallet.
pub record AgentState : Type 0 where
  pub agent_key : Pubkey
  pub main_wallet : Option Pubkey
  pub strategy_id_opt : Option ℕ
  pub pool : LiquidityPoolKeys
  pub orders : Orders

-- What the text of `State::Error` reports.
pub data Failure : Type 0 where
  deactivated_main_wallet : Failure
  executing_action : ExecutionError → Failure
  processing_receipt : Failure
  action_timeout : Failure

pub data State : Type 0 where
  idle : State
  transferring : List SolanaTransferActionPayload → ℕ → State
  collecting : ℕ → State
  buying : Amount → ℕ → State
  selling : Amount → ℕ → State
  success : State
  error : Failure → State
  deactivating : ℕ → State
  deactivated : State

unfoldable pub is_main_wallet : AgentState → Bool
is_main_wallet a = elim a.strategy_id_opt [ none ↦ true | some _ ↦ false ]

unfoldable pub get_main_wallet : AgentState → Pubkey
get_main_wallet a = elim a.main_wallet [ none ↦ a.agent_key | some w ↦ w ]

unfoldable pub with_accounts : Accounts.Accounts → AgentState → AgentState
with_accounts accounts a = record a {
  orders = record (a.orders) { shared = record (a.orders.shared) { accounts = accounts } };
}

-- `get_token_balance`: the query fills the account table, and a failed one counts as 0.
unfoldable pub get_token_balance : Env → AgentState → AgentState × ℕ
unfolding with_accounts
get_token_balance env a =
    let ata = env.associated_token_address a.agent_key a.pool.base_mint in
    let (accounts, balance) = Accounts.get_token_balance env.rpc ata a.orders.shared.accounts in
    (with_accounts accounts a, unwrap_or_zero balance)

unfoldable pub get_sol_balance : Env → AgentState → AgentState × ℕ
unfolding with_accounts
get_sol_balance env a =
    let (accounts, balance) = Accounts.get_balance env.rpc a.agent_key a.orders.shared.accounts in
    (with_accounts accounts a, unwrap_or_zero balance)

-- `drop`: the main wallet is kept. A failed connection skips the update of the row.
unfoldable pub drop : Env → AgentState → AgentState
drop env a =
    let shared = a.orders.shared in
    let ata = env.associated_token_address a.agent_key a.pool.base_mint in
    if is_main_wallet a then a else record a {
      orders = record (a.orders) {
        shared = record shared {
          inactive = if env.db_available then a.agent_key ∷ shared.inactive else shared.inactive;
          accounts =
              Accounts.stop_monitoring_account ata
                (Accounts.stop_monitoring_account a.agent_key shared.accounts);
        };
      };
    }
