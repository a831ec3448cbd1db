-- ===== src/Sweeper.antt =====
-- src/strategies/sweeper_strategy: the strategy that collects what is left with old agents.
pub mod Machine
pub mod Dispatch
pub mod Progress
