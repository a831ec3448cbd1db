-- ===== src/Types.antt =====
-- The bot's shared vocabulary: actions (src/types/actions), events (src/types/events/events.rs,
-- src/strategies/events.rs), signed numbers and the constants of src/config/constants.rs.
mod Constants
mod Wrapping
mod Signed
mod Actions
mod Events
pub use Constants.*
pub use Wrapping.*
pub use Signed.*
pub use Actions.*
pub use Events.*
