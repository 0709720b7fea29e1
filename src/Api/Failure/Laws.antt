-- ===== src/Api/Failure/Laws.antt =====
-- src/api.rs: what an answer tells a client about retrying.
use hhm_api_server_rs.Common.{◌≡◌, refl, none, nat_eq}
use hhm_api_server_rs.Persistence.Error.{
  DataError, validation, invalid_context, idempotency_conflict, intake_object_unavailable,
  unauthenticated, database, decode, invariant,
}
use hhm_api_server_rs.Auth.{AuthError, missing_bearer, invalid, forbidden, unavailable}
use hhm_api_server_rs.External.{ExternalError, rejected, object_mismatch, invalid_response}
use hhm_api_server_rs.Api.Failure.{ApiFailure, from_auth, from_data, from_external}

-- A failure asks for a retry exactly where its status is 503.
abbrev pub IsConsistent : ApiFailure → Type 0
IsConsistent f = (f.retryable ≡ nat_eq f.status 503) × (f.submission_id ≡ none)

-- Every lower error becomes an answer without an identifier, that asks for a retry exactly where
-- its status is 503.
pub from_errors-IsConsistent :
    (a : AuthError) (d : DataError) (e : ExternalError)
    → IsConsistent (from_auth a) × IsConsistent (from_data d) × IsConsistent (from_external e)
from_errors-IsConsistent a d e = (of_auth a, of_data d, of_external e)
  where
    of_auth : (a : AuthError) → IsConsistent (from_auth a)
    of_auth missing_bearer = (refl, refl)
    of_auth invalid = (refl, refl)
    of_auth forbidden = (refl, refl)
    of_auth unavailable = (refl, refl)

    of_data : (d : DataError) → IsConsistent (from_data d)
    of_data (validation _) = (refl, refl)
    of_data (invalid_context _) = (refl, refl)
    of_data idempotency_conflict = (refl, refl)
    of_data intake_object_unavailable = (refl, refl)
    of_data unauthenticated = (refl, refl)
    of_data database = (refl, refl)
    of_data decode = (refl, refl)
    of_data invariant = (refl, refl)

    of_external : (e : ExternalError) → IsConsistent (from_external e)
    of_external rejected = (refl, refl)
    of_external object_mismatch = (refl, refl)
    of_external ExternalError.unavailable = (refl, refl)
    of_external invalid_response = (refl, refl)
