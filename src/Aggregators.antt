-- ===== src/Aggregators.antt =====
-- src/aggregators: the bars and indicators that are derived from the swaps of a pool.
pub mod Library
pub mod TickBar
pub mod TickBars
pub mod EveryTick
pub mod Indicators
pub mod Bars
pub mod Isolation
