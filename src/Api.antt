-- ===== src/Api.antt =====
-- src/api.rs: the handlers of the intake API and what they call.
pub mod Failure
pub mod Request
pub mod State
pub mod Submissions
pub mod UploadHandlers
pub mod Cors
pub mod Health
pub mod Routes
