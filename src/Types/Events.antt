-- ===== src/Types/Events.antt =====
-- src/types/events/events.rs and src/strategies/events.rs: events, over the type `F` of the prices.
use Prim.Native.Nat.{ℕ}
use Prim.Native.String.{String}
use mathlib.Core.Option.{Option}
use mathlib.Core.List.{List}
use foxfire_sniper.Types.Actions.{Pubkey, Uuid, Signature, Amount, SolanaTransferActionPayload}

pub data ExecutionError : Type 0 where
  action_too_old no_instructions_generated several_tokens_in_one_tx zero_sol_balance :
      ExecutionError
  not_enough_sol_balance : ℕ → ℕ → ExecutionError
  not_enough_token_balance : ℕ → ℕ → ExecutionError
  unsupported_pool : Pubkey → Pubkey → ExecutionError
  simulation_failed : String → ExecutionError
  other : String → ExecutionError

pub data ExecutionResult : Type 0 where
  sent : ExecutionResult
  execution_error : ExecutionError → ExecutionResult

-- `err` numbers the transaction errors of the chain.
pub record ExecutionReceipt : Type 0 where
  pub action_uuid : Uuid
  pub transaction_signature : Signature
  pub err : Option ℕ

pub record RaydiumPoolPriceUpdate (F : Type 0) : Type 0 where
  pub pool : Pubkey
  pub price : F
  pub base_reserve : F
  pub quote_reserve : F

-- Of a pool the state machines read the identifier and the two mints.
pub record RaydiumPool : Type 0 where
  pub id : Pubkey
  pub base_mint : Pubkey
  pub quote_mint : Pubkey

-- `raydium_swap_event` carries its price update; `other_chain_event` stands for the kinds that no
-- strategy reads and that are marked as not implemented.
pub data BlockchainEvent (F : Type 0) : Type 0 where
  deposit : Signature → Pubkey → ℕ → BlockchainEvent F
  execution_receipt : ExecutionReceipt → BlockchainEvent F
  raydium_heartbeat_price_update : RaydiumPoolPriceUpdate F → BlockchainEvent F
  raydium_swap_event : RaydiumPoolPriceUpdate F → BlockchainEvent F
  raydium_new_pool_event : RaydiumPool → RaydiumPoolPriceUpdate F → BlockchainEvent F
  account_update : Pubkey → BlockchainEvent F
  withdrawal : Signature → Pubkey → ℕ → BlockchainEvent F
  other_chain_event : BlockchainEvent F

-- `heart_beat tick_ms`; the action handle of `ExecutionResult` is its identifier.
pub data BotEvent (F : Type 0) : Type 0 where
  heart_beat : ℕ → BotEvent F
  blockchain_event : BlockchainEvent F → BotEvent F
  derived_event : BotEvent F
  execution_result : Uuid → ExecutionResult → BotEvent F
  system_event : BotEvent F

pub data AgentEvent : Type 0 where
  buy : Amount → AgentEvent
  sell : Amount → AgentEvent
  transfer_batch : List SolanaTransferActionPayload → AgentEvent
  collect : AgentEvent
  deactivate : AgentEvent

pub data SolanaStrategyEvent (F : Type 0) : Type 0 where
  original : BotEvent F → SolanaStrategyEvent F
  for_agent : AgentEvent → SolanaStrategyEvent F
