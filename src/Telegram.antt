-- ===== src/Telegram.antt =====
-- src/tg_bot: the dialogue by which a user sets a volume strategy up and starts it.
pub mod Input
pub mod Config
pub mod SnipingConfig
pub mod Dialogue
pub mod Session
pub mod Texts
pub mod Presses
pub mod Dispatch
pub mod Making
pub mod Moves
pub mod Evolution
pub mod Steps
pub mod Updates
pub mod Soundness
pub mod Runs
pub mod Access
