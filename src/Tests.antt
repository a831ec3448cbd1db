-- ===== src/Tests.antt =====
-- Concrete runs of the modelled code, at which the theorems are applied.
mod Agents
mod Volumes
mod Sweeps
mod Snipes
mod Buffers
mod Amounts
mod Executions
mod Feeds
mod Managers
mod Telegrams
mod Pools
mod Engines
mod PrivateKeys
pub mod Bars
