-- ===== src/Model.antt =====
-- The data that the crates share: crates/santi-core/src/model, error.rs and the port inputs.
pub mod Json
pub mod Error
pub mod Message
pub mod Session
pub mod Provider
