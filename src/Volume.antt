-- ===== src/Volume.antt =====
-- src/strategies/volume_strategy: the strategy that trades through a tranche of agents.
pub mod State
pub mod Batches
pub mod Status
pub mod Actions
pub mod Funding
pub mod Machine
pub mod Flow
pub mod Dropped
pub mod Process
