-- ===== src/Rpc.antt =====
-- src/solana/rpc_pool.rs: one call over all providers, and what is read of a pool; src/solana/pool.rs.
pub mod Calls
pub mod Pools
pub mod NewPools
pub mod PoolKeys
pub mod Answers
pub mod Reserves
pub mod Validity
pub mod Vaults
