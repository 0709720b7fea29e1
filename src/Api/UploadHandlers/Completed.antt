-- ===== src/Api/UploadHandlers/Completed.antt =====
-- src/api.rs: what a successful `complete_upload` has checked and written.
use hhm_api_server_rs.Common.{ℕ, ◌≡◌, true, Option, Text, Text-Eq, ℕ-Eq, count_where, modify_where}
use hhm_api_server_rs.Common.Result.{ok}
use hhm_api_server_rs.Http.{HeaderMap}
use hhm_api_server_rs.Persistence.Context.{Uuid, VerifiedSubject}
use hhm_api_server_rs.Persistence.Inputs.{UploadCompleteCreate}
use hhm_api_server_rs.Persistence.Rows.{Db}
use hhm_api_server_rs.Persistence.Session.{WriteContext, Session}
use hhm_api_server_rs.Persistence.Uploads.{PendingUpload, pending_upload, verifies, verified_row}
use hhm_api_server_rs.External.{verify_object}
use hhm_api_server_rs.Api.State.{AppState, World}
use hhm_api_server_rs.Api.Request.{authenticate_or_verify_public}
use hhm_api_server_rs.Api.UploadHandlers.{same_upload_identity}

-- The effect of a verification on a database: the one row that it applies to is marked.
pub record IsVerified (self : WriteContext) (upload_id : Uuid) (subject : Option VerifiedSubject)
    (digest : Text) (db db' : Db) : Type 0 where
  pub at : ℕ
  pub one : count_where (verifies upload_id subject digest (self.timestamp at)) db.uploads ≡ 1
  pub after : db' ≡ record db {
    uploads =
        modify_where
          (verifies upload_id subject digest (self.timestamp at))
          (verified_row (self.timestamp at))
          db.uploads;
  }

module _ (state : AppState) (headers : HeaderMap) (upload_id : Uuid)
    (input : UploadCompleteCreate) where
  -- A completed upload: the sender was known or passed Turnstile; both databases showed one pending
  -- upload with the digest in the request; its object was verified; then both marked it.
  pub record Completed (w w' : World) : Type 0 where
    pub subject : Option VerifiedSubject
    pub pending : PendingUpload
    pub mirrored : PendingUpload
    pub known : authenticate_or_verify_public state headers input.turnstile_token ≡ ok subject
    pub shown :
        pending_upload state.primary upload_id subject w.primary
        ≡ (ok pending, (pending_upload state.primary upload_id subject w.primary).1)
    pub shown_mirror :
        pending_upload state.supabase upload_id subject w.supabase
        ≡ (ok mirrored, (pending_upload state.supabase upload_id subject w.supabase).1)
    pub digest : input.sha256 ≡ pending.expected_sha256
    pub identical : same_upload_identity pending mirrored ≡ true
    pub object : verify_object state.outside state.project_url pending ≡ ok tt
    pub in_mirror :
        IsVerified state.supabase upload_id subject input.sha256 w.supabase.db w'.supabase.db
    pub in_primary :
        IsVerified state.primary upload_id subject input.sha256 w.primary.db w'.primary.db
