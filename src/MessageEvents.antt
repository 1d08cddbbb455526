-- ===== src/MessageEvents.antt =====
-- crates/santi-db/src/message_events.rs: what a message event does to a message. The text that
-- serde adds to its own error messages is left out.
pub mod Merge
pub mod Apply
pub mod Guards
pub mod Remove
pub mod Insert
pub mod Patch
pub mod Examples
