-- ===== src/Agent.antt =====
-- src/strategies/volume_strategy/agent/agent_state_machine.rs: the agent of one wallet.
pub mod State
pub mod Entry
pub mod Handlers
pub mod Retries
pub mod Steps
pub mod Identity
pub mod MainWallet
pub mod Receipts
pub mod Ordering
pub mod Totality
pub mod Cycle
