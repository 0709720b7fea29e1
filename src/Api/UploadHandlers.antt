-- ===== src/Api/UploadHandlers.antt =====
-- src/api.rs: `create_upload_intent` and `complete_upload`.
pub mod Completed
pub mod Reserved
use hhm_api_server_rs.Common.{
  ℕ, Bool, true, false, not, ◌&&◌, Option, none, some, List, [], ◌∷◌, String, Text, Text-Eq, ℕ-Eq,
  ◌==◌, if◌then◌else◌,
}
use hhm_api_server_rs.Common.Result.{
  Result, ok, err, panic, map_err, pure, raise, lift, ◌>>=◌, ◌>>◌,
}
use hhm_api_server_rs.Http.{Url, HeaderMap}
use hhm_api_server_rs.Persistence.Error.{DataError}
use hhm_api_server_rs.Persistence.Kinds.{
  PersistenceTarget, primary, supabase_mirror, upload, UploadKind, resume, photo_id,
}
use hhm_api_server_rs.Persistence.Context.{
  Uuid, VerifiedSubject, SubmissionContext, with_canonical_id,
}
use hhm_api_server_rs.Persistence.Inputs.{UploadIntentCreate, UploadCompleteCreate}
use hhm_api_server_rs.Persistence.Uploads.{
  StoredUpload, PendingUpload, store_upload_intent, pending_upload, verify_upload,
}
use hhm_api_server_rs.Persistence.Outbox.{mark_mirrored}
use hhm_api_server_rs.External.{max_upload_bytes, create_signed_upload_url, verify_object}
use hhm_api_server_rs.Api.Failure.{
  ApiFailure, invalid_request, conflict, mirror_unavailable, from_data, from_external,
}
use hhm_api_server_rs.Api.State.{
  AppState, World, Handler, on_primary, on_supabase, or_fail, attempt,
}
use hhm_api_server_rs.Api.Request.{
  Json, canonical_digest_without_turnstile, submission_context, authenticate_or_verify_public,
}
use hhm_api_server_rs.Api.Submissions.{record_failure}

abbrev pub allowed_content_types : UploadKind → List String
allowed_content_types resume =
    "application/pdf" ∷ "application/vnd.openxmlformats-officedocument.wordprocessingml.document"
    ∷ []
allowed_content_types photo_id = "application/pdf" ∷ "image/jpeg" ∷ "image/png" ∷ "image/heic" ∷ []

-- `UploadIntentReceipt`, sent with status 201. `maximum_bytes` is a constant of the contract crate.
pub record UploadIntentReceipt : Type 0 where
  pub upload_id : Uuid
  pub kind : UploadKind
  pub upload_url : Url
  pub expires_at : ℕ
  pub maximum_bytes : ℕ
  pub allowed_types : List String

abbrev pub same_upload_identity : PendingUpload → PendingUpload → Bool
same_upload_identity first second =
    first.id == second.id
    && first.object_key == second.object_key
    && first.expected_sha256 == second.expected_sha256
    && first.content_type == second.content_type
    && first.size_bytes == second.size_bytes

abbrev pub mirrored_upload : Uuid → Option StoredUpload → Bool
mirrored_upload id none = false
mirrored_upload id (some stored) = stored.id == id

module _ (state : AppState) (headers : HeaderMap) where
  -- The answer once both databases hold the intent; `maximum` is `MAX_UPLOAD_BYTES` of the
  -- contract crate.
  unfoldable pub finish_upload :
      ℕ → SubmissionContext → UploadIntentCreate → StoredUpload → Handler UploadIntentReceipt
  finish_upload maximum context input stored = do
    or_fail (λ _. mirror_unavailable stored.id)
        (on_primary (mark_mirrored state.primary upload stored.id context.payload_sha256))
    upload_url ← lift (
        map_err from_external
          (create_signed_upload_url state.outside state.project_url stored.object_key))
    pure (record {
      upload_id = stored.id;
      kind = input.kind;
      upload_url = upload_url;
      expires_at = stored.expires_at;
      maximum_bytes = maximum;
      allowed_types = allowed_content_types input.kind;
    })

  unfoldable pub settle_upload :
      ℕ
      → SubmissionContext
      → UploadIntentCreate
      → StoredUpload
      → Option StoredUpload
      → Handler UploadIntentReceipt
  settle_upload maximum context input stored mirrored =
      if mirrored_upload stored.id mirrored
      then finish_upload maximum context input stored
      else record_failure state upload stored.id >> raise (mirror_unavailable stored.id)

  -- The part of `create_upload_intent` from the first write on. `now` and `mirror_now` are what
  -- `Utc::now` reads for the two databases.
  unfoldable pub persist_upload :
      ℕ → ℕ → ℕ → SubmissionContext → UploadIntentCreate → Handler UploadIntentReceipt
  persist_upload now mirror_now maximum context input = do
    stored ←
        or_fail from_data
          (on_primary (store_upload_intent state.contract state.primary primary context input now))
    mirrored ← attempt (
        on_supabase (
          store_upload_intent state.contract state.supabase supabase_mirror
            (with_canonical_id context stored.id) input mirror_now))
    settle_upload maximum context input stored mirrored

  unfoldable pub create_upload_intent :
      Uuid → ℕ → ℕ → ℕ → Json UploadIntentCreate → UploadIntentCreate → Handler UploadIntentReceipt
  unfolding persist_upload
  create_upload_intent fresh now mirror_now maximum json input = do
    lift (map_err (λ _. invalid_request) (state.contract.validate_upload_intent input))
    subject ← lift (authenticate_or_verify_public state headers input.turnstile_token)
    digest ← lift (canonical_digest_without_turnstile state.outside json input)
    context ← lift (submission_context state.outside fresh subject headers digest)
    persist_upload now mirror_now maximum context input

  -- The last steps of `complete_upload`: the stored object, then the mirror, then the primary.
  unfoldable pub verify_both :
      Uuid
      → Option VerifiedSubject
      → UploadCompleteCreate
      → PendingUpload
      → PendingUpload
      → Handler Uuid
  verify_both upload_id subject input primary_upload mirror_upload =
      if not (same_upload_identity primary_upload mirror_upload)
      then raise conflict
      else lift
          (map_err from_external (verify_object state.outside state.project_url primary_upload))
        >> or_fail from_data
            (on_supabase (verify_upload state.supabase upload_id subject input.sha256))
        >> or_fail from_data
            (on_primary (verify_upload state.primary upload_id subject input.sha256))
        >> pure upload_id

  -- The steps that follow the primary's row.
  unfoldable pub complete_pending :
      Uuid → Option VerifiedSubject → UploadCompleteCreate → PendingUpload → Handler Uuid
  unfolding verify_both
  complete_pending upload_id subject input primary_upload =
      if not (input.sha256 == primary_upload.expected_sha256)
      then raise conflict
      else or_fail from_data (on_supabase (pending_upload state.supabase upload_id subject))
        >>= verify_both upload_id subject input primary_upload

  -- The identifier in the receipt; its status is always `Verified`.
  unfoldable pub complete_upload : Uuid → UploadCompleteCreate → Handler Uuid
  unfolding complete_pending
  complete_upload upload_id input = do
    lift (map_err (λ _. invalid_request) (state.contract.validate_upload_complete input))
    subject ← lift (authenticate_or_verify_public state headers input.turnstile_token)
    primary_upload ← or_fail from_data (on_primary (pending_upload state.primary upload_id subject))
    complete_pending upload_id subject input primary_upload
