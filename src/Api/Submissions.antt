-- ===== src/Api/Submissions.antt =====
-- src/api.rs: `create_pre_interest`, `create_application`, `create_referral`, and what they share.
pub mod Dual
pub mod Durable
pub mod Accepted
pub mod Receipt
pub mod Refusal
pub mod Retry
pub mod Concurrent
use hhm_api_server_rs.Common.{
  ℕ, Bool, true, false, Option, none, some, Text, ℕ-Eq, codes, ◌==◌, if◌then◌else◌,
}
use hhm_api_server_rs.Common.Result.{
  Result, ok, err, panic, map_err, pure, raise, lift, ◌>>=◌, ◌>>◌,
}
use hhm_api_server_rs.Http.{HeaderMap}
use hhm_api_server_rs.Persistence.Error.{DataError}
use hhm_api_server_rs.Persistence.Kinds.{
  PersistenceTarget, primary, supabase_mirror, StoredSubmissionKind, pre_interest, application,
  referral,
}
use hhm_api_server_rs.Persistence.Context.{
  Uuid, SubmissionContext, with_canonical_id, authenticated,
}
use hhm_api_server_rs.Persistence.Inputs.{PreInterestCreate, ApplicationCreate, ReferralCreate}
use hhm_api_server_rs.Persistence.Session.{WriteContext, Command}
use hhm_api_server_rs.Persistence.Submit.{StoredSubmission, store_pre_interest, store_referral}
use hhm_api_server_rs.Persistence.Application.{store_application}
use hhm_api_server_rs.Persistence.Outbox.{mark_mirrored, record_mirror_failure}
use hhm_api_server_rs.Auth.{required_subject}
use hhm_api_server_rs.Api.Failure.{
  ApiFailure, invalid_request, mirror_unavailable, from_data, from_auth,
}
use hhm_api_server_rs.Api.State.{
  AppState, World, Handler, on_primary, on_supabase, or_fail, attempt,
}
use hhm_api_server_rs.Api.Request.{
  Json, canonical_digest, canonical_digest_without_turnstile, idempotency_key, source_host,
  submission_context, authenticate_or_verify_public,
}

-- `SubmissionReceipt`, sent with status 201; both persistence fields of the source are the
-- constant `Stored`.
pub record SubmissionReceipt : Type 0 where
  pub submission_id : Uuid
  pub kind : StoredSubmissionKind
  pub accepted_at : ℕ

-- The connection that a target writes to.
abbrev pub connection : AppState → PersistenceTarget → WriteContext
connection state primary = state.primary
connection state supabase_mirror = state.supabase

-- `matches!(mirrored, Ok(ref stored) if stored.id == primary.id)`
abbrev pub mirrored_as : Uuid → Option StoredSubmission → Bool
mirrored_as id none = false
mirrored_as id (some stored) = stored.id == id

module _ (state : AppState) where
  -- `record_failure`: a failing update of the outbox is only logged; a panic is not caught.
  unfoldable pub record_failure : StoredSubmissionKind → Uuid → Handler (Unit {0})
  record_failure kind id = do
    attempt
        (on_primary (record_mirror_failure state.primary kind id (codes "supabase_unavailable")))
    pure tt

  unfoldable pub finish_submission :
      StoredSubmissionKind → SubmissionContext → StoredSubmission → Handler SubmissionReceipt
  finish_submission kind context stored = do
    or_fail (λ _. mirror_unavailable stored.id)
        (on_primary (mark_mirrored state.primary kind stored.id context.payload_sha256))
    pure (record { submission_id = stored.id; kind = kind; accepted_at = stored.accepted_at })

  -- What the three handlers do with the outcome of the mirror.
  unfoldable pub settle_submission :
      StoredSubmissionKind
      → SubmissionContext
      → StoredSubmission
      → Option StoredSubmission
      → Handler SubmissionReceipt
  unfolding record_failure finish_submission
  settle_submission kind context stored mirrored =
      if mirrored_as stored.id mirrored
      then finish_submission kind context stored
      else record_failure kind stored.id >> raise (mirror_unavailable stored.id)

  -- What the three handlers do once they have a context; `store` is the command of the kind, by the
  -- target and the context.
  unfoldable pub persist_both :
      StoredSubmissionKind
      → SubmissionContext
      → (PersistenceTarget → SubmissionContext → Command StoredSubmission)
      → Handler SubmissionReceipt
  persist_both kind context store = do
    stored ← or_fail from_data (on_primary (store primary context))
    mirrored ← attempt (on_supabase (store supabase_mirror (with_canonical_id context stored.id)))
    settle_submission kind context stored mirrored

  module _ (headers : HeaderMap) (fresh : Uuid) where
    unfoldable pub create_pre_interest :
        Json PreInterestCreate → PreInterestCreate → Handler SubmissionReceipt
    unfolding persist_both
    create_pre_interest json input = do
      lift (map_err (λ _. invalid_request) (state.contract.validate_pre_interest input))
      subject ← lift (authenticate_or_verify_public state headers input.turnstile_token)
      digest ← lift (canonical_digest_without_turnstile state.outside json input)
      context ← lift (submission_context state.outside fresh subject headers digest)
      persist_both pre_interest context
          λ target ctx. store_pre_interest state.contract (connection state target) target ctx input

    unfoldable pub create_application :
        Json ApplicationCreate → ApplicationCreate → Handler SubmissionReceipt
    unfolding persist_both
    create_application json input = do
      lift (map_err (λ _. invalid_request) (state.contract.validate_application input))
      subject ← lift (authenticate_or_verify_public state headers input.turnstile_token)
      digest ← lift (canonical_digest_without_turnstile state.outside json input)
      context ← lift (submission_context state.outside fresh subject headers digest)
      persist_both application context
          λ target ctx. store_application state.contract (connection state target) target ctx input

    unfoldable pub create_referral :
        Json ReferralCreate → ReferralCreate → Handler SubmissionReceipt
    unfolding persist_both
    create_referral json input = do
      lift (map_err (λ _. invalid_request) (state.contract.validate_referral input))
      subject ← lift (map_err from_auth (required_subject state.outside state.audience headers))
      key ← lift (idempotency_key headers)
      digest ← lift (canonical_digest state.outside json input)
      host ← lift (source_host state.outside headers)
      context ← lift (map_err from_data (authenticated fresh subject key digest host))
      persist_both referral context
          λ target ctx. store_referral state.contract (connection state target) target ctx input
