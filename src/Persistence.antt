-- ===== src/Persistence.antt =====
-- src/persistence.rs: the persistence commands over one PostgreSQL database.
pub mod Error
pub mod Kinds
pub mod Context
pub mod Inputs
pub mod Rows
pub mod Session
pub mod Submit
pub mod Application
pub mod Uploads
pub mod Outbox
pub mod Refinement
pub mod Replay
pub mod Healthy
pub mod Invariant
