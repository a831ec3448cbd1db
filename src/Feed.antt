-- ===== src/Feed.antt =====
-- src/collectors/realtime_feed_events_collector.rs, and src/solana/tx_parser.rs that it reads with:
-- the chain's updates become the bot's events.
pub mod Transactions
pub mod Swaps
pub mod Directions
pub mod Updates
pub mod State
pub mod Reserves
pub mod Stream
pub mod Extension
pub mod Receipts
pub mod Prices
