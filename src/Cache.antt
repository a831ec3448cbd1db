-- ===== src/Cache.antt =====
-- The bounded maps behind the bot's operational cache (src/utils, src/config/cache.rs).
pub mod CircularBuffer
pub mod LookupByValue
pub mod Operational
pub mod Poll
