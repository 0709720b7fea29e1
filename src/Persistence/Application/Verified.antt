-- ===== src/Persistence/Application/Verified.antt =====
-- src/persistence.rs: what `require_verified_uploads` finds.
use hhm_api_server_rs.Common.{
  ℕ, ◌<◌, ◌≡◌, ◌⊎◌, true, arith, count_where, option_eq_iff, Text-Eq, String-Eq,
}
use hhm_api_server_rs.Common.Several.{Several, Several-count}
use hhm_api_server_rs.Common.Result.{ok}
use hhm_api_server_rs.Persistence.Context.{SubmissionContext, subject_text}
use hhm_api_server_rs.Persistence.Inputs.{ApplicationCreate}
use hhm_api_server_rs.Persistence.Rows.{UploadRow}
use hhm_api_server_rs.Persistence.Session.{WriteContext, Session, DatabaseTransaction, query_one}
use hhm_api_server_rs.Persistence.Application.{matching_upload, require_verified_uploads}

module _ (context : SubmissionContext) (input : ApplicationCreate) (now : ℕ) where
  -- An upload of the context's subject that was verified and has not expired: the résumé or the
  -- photo identity document that the application names.
  pub record Qualifies (row : UploadRow) : Type 0 where
    pub owned : row.applicant_subject ≡ subject_text context.subject
    pub checked : row.status ≡ "verified"
    pub current : now < row.expires_at
    pub named :
        ((row.id ≡ input.resume_upload_id) × (row.kind ≡ "resume"))
        ⊎ ((row.id ≡ input.photo_id_upload_id) × (row.kind ≡ "photo_id"))

  matching-Qualifies :
      (row : UploadRow) → matching_upload context input now row ≡ true → Qualifies row
  matching-Qualifies row h = record {
    owned = ground (arith, option_eq_iff row.applicant_subject (subject_text context.subject));
    checked = ground (arith, String-Eq.decides row.status "verified");
    current = ground arith;
    named =
        ground (arith, String-Eq.decides row.kind "resume", String-Eq.decides row.kind "photo_id");
  }

module _ (self : WriteContext) (context : SubmissionContext) (input : ApplicationCreate) where
  -- The check passes only where two uploads qualify, and changes nothing.
  pub require_verified_uploads-eq-ok :
      (tx : DatabaseTransaction) (s : Session) {s' : Session}
      → require_verified_uploads self context input tx s ≡ (ok tt, s')
      → (s'.db ≡ s.db)
        × Several (Qualifies context input (self.timestamp tx.started)) 2 s.db.uploads
  unfolding require_verified_uploads query_one
  require_verified_uploads-eq-ok tx s h =
      let test = matching_upload context input (self.timestamp tx.started) in
      let two : count_where test s.db.uploads ≡ 2 = ground arith in
      (
        ground arith,
        rw two at (
            Several-count (Qualifies context input (self.timestamp tx.started)) test
              (matching-Qualifies context input (self.timestamp tx.started)) s.db.uploads),
      )
