-- ===== src/Api/Failure.antt =====
-- src/api.rs: `ApiFailure` and the mapping of every lower error to it.
pub mod Laws
use hhm_api_server_rs.Common.{ℕ, Bool, true, false, Option, none, some, String}
use hhm_api_server_rs.Persistence.Error.{
  DataError, validation, invalid_context, idempotency_conflict, intake_object_unavailable,
  unauthenticated, database, decode, invariant,
}
use hhm_api_server_rs.Persistence.Context.{Uuid}
use hhm_api_server_rs.Auth.{AuthError, missing_bearer, invalid, forbidden, unavailable}
use hhm_api_server_rs.External
use hhm_api_server_rs.External.{ExternalError, rejected, object_mismatch, invalid_response}

-- The status and the fields of `ApiErrorBody`.
pub record ApiFailure : Type 0 where
  pub status : ℕ
  pub code : String
  pub message : String
  pub retryable : Bool
  pub submission_id : Option Uuid

abbrev pub invalid_request : ApiFailure
invalid_request = record {
  status = 422;
  code = "invalid_request";
  message = "The request did not satisfy the intake contract.";
  retryable = false;
  submission_id = none;
}

abbrev pub conflict : ApiFailure
conflict = record {
  status = 409;
  code = "intake_conflict";
  message = "The intake resource conflicts with its verified state.";
  retryable = false;
  submission_id = none;
}

abbrev pub mirror_unavailable : Uuid → ApiFailure
mirror_unavailable id = record {
  status = 503;
  code = "dual_persistence_incomplete";
  message = "The submission is retained for retry but is not yet accepted.";
  retryable = true;
  submission_id = some id;
}

abbrev pub authentication_required : ApiFailure
authentication_required = record {
  status = 401;
  code = "authentication_required";
  message = "A valid Shared Auth session is required.";
  retryable = false;
  submission_id = none;
}

abbrev pub from_auth : AuthError → ApiFailure
from_auth missing_bearer = authentication_required
from_auth invalid = authentication_required
from_auth forbidden = record {
  status = 403;
  code = "authorization_denied";
  message = "The authenticated subject is not allowed to perform this action.";
  retryable = false;
  submission_id = none;
}
from_auth unavailable = record {
  status = 503;
  code = "authentication_unavailable";
  message = "Shared Auth could not make an authorization decision.";
  retryable = true;
  submission_id = none;
}

abbrev pub persistence_unavailable : ApiFailure
persistence_unavailable = record {
  status = 503;
  code = "persistence_unavailable";
  message = "The intake service could not complete persistence.";
  retryable = true;
  submission_id = none;
}

abbrev pub from_data : DataError → ApiFailure
from_data (validation _) = invalid_request
from_data (invalid_context _) = invalid_request
from_data idempotency_conflict = conflict
from_data intake_object_unavailable = conflict
from_data unauthenticated = from_auth missing_bearer
from_data database = persistence_unavailable
from_data decode = persistence_unavailable
from_data invariant = persistence_unavailable

abbrev pub external_unavailable : ApiFailure
external_unavailable = record {
  status = 503;
  code = "external_verification_unavailable";
  message = "An external verification step could not be completed.";
  retryable = true;
  submission_id = none;
}

abbrev pub from_external : ExternalError → ApiFailure
from_external rejected = invalid_request
from_external object_mismatch = conflict
from_external ExternalError.unavailable = external_unavailable
from_external invalid_response = external_unavailable
