-- ===== src/Sniper.antt =====
-- src/strategies/sniper_strategy: one agent for each pool that is sniped, and their strategy.
pub mod Floats
pub mod State
pub mod Handlers
pub mod Trades
pub mod Strategy
