-- ===== src/Manager.antt =====
-- src/strategies/solana_strategy_manager.rs: which strategies there are and which of them run.
pub mod Identifiers
pub mod Registry
pub mod Runner
pub mod Agreement
