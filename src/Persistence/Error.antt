-- ===== src/Persistence/Error.antt =====
-- src/persistence.rs: `DataError`.
use hhm_api_server_rs.Common.{Text, String}

-- `validation` carries what the contract crate reports, `invalid_context` the field at fault.
pub data DataError : Type 0 where
  validation : Text → DataError
  invalid_context : String → DataError
  idempotency_conflict : DataError
  intake_object_unavailable : DataError
  unauthenticated : DataError
  database : DataError
  decode : DataError
  invariant : DataError
