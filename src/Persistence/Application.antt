-- ===== src/Persistence/Application.antt =====
-- src/persistence.rs: `require_verified_uploads` and `store_application`.
pub mod Verified
use hhm_api_server_rs.Common.{
  ℕ, ℤ, pos, negsuc, Bool, ◌&&◌, ◌||◌, some, String-Eq, ℕ-Eq, Text-Eq, trim, count_where, ltb, leb,
  ◌==◌, option_eq, if◌then◌else◌,
}
use hhm_api_server_rs.Common.Result.{
  Result, ok, err, map_err, ok_or, pure, raise, lift, ◌>>=◌, ◌>>◌,
}
use hhm_api_server_rs.Persistence.Error.{
  DataError, validation, intake_object_unavailable, invariant,
}
use hhm_api_server_rs.Persistence.Kinds.{
  PersistenceTarget, mirror_status, application, project_stage, stay_preference, sensitivity_level,
  roommate_preference,
}
use hhm_api_server_rs.Persistence.Context.{SubmissionContext, subject_text}
use hhm_api_server_rs.Persistence.Inputs.{Contract, ApplicationCreate}
use hhm_api_server_rs.Persistence.Rows.{Row, ApplicationColumns, UploadRow, application_table}
use hhm_api_server_rs.Persistence.Session.{
  WriteContext, Command, DatabaseTransaction, query_one, read, in_transaction,
}
use hhm_api_server_rs.Persistence.Submit.{StoredSubmission, insert_or_replay, maybe_insert_outbox}

-- `i16::try_from`.
abbrev pub to_i16 : ℤ → Result DataError ℤ
to_i16 (pos n) = if leb n 32767 then ok (pos n) else err invariant
to_i16 (negsuc n) = if leb n 32767 then ok (negsuc n) else err invariant

-- The `WHERE` clause of `require_verified_uploads`, at the time `now`.
abbrev pub matching_upload : SubmissionContext → ApplicationCreate → ℕ → UploadRow → Bool
matching_upload context input now row =
    option_eq row.applicant_subject (subject_text context.subject)
    && row.status == "verified"
    && ltb now row.expires_at
    && (row.id == input.resume_upload_id && row.kind == "resume"
        || row.id == input.photo_id_upload_id && row.kind == "photo_id")

module _ (self : WriteContext) (context : SubmissionContext) (input : ApplicationCreate) where
  unfoldable pub require_verified_uploads : DatabaseTransaction → Command (Unit {0})
  require_verified_uploads tx = do
    found ← query_one self (λ n db. (
      some (count_where (matching_upload context input (self.timestamp tx.started)) db.uploads),
      db,
    ))
    row ← lift (ok_or invariant found)
    matching ← lift (read self row.call "matching_uploads" row.columns)
    if matching == 2 then pure tt else raise intake_object_unavailable

module _ (contract : Contract) (self : WriteContext) (target : PersistenceTarget)
    (context : SubmissionContext) (input : ApplicationCreate) where
  abbrev pub application_row : ℤ → ℕ → Row ApplicationColumns
  application_row occupancy n = record {
    id = context.canonical_id;
    idempotency_key = context.idempotency_key;
    payload_sha256 = context.payload_sha256;
    subject = subject_text context.subject;
    mirror_status = mirror_status target;
    accepted_at = self.accepted_default n;
    columns = record {
      email = trim input.email;
      linkedin_url = trim input.linkedin_url;
      legal_name = trim input.legal_name;
      date_of_birth = input.date_of_birth;
      nationality = trim input.nationality;
      phone = trim input.phone;
      current_city = trim input.current_city;
      github_url = input.github_url;
      portfolio_url = input.portfolio_url;
      entrepreneurship_idea = trim input.entrepreneurship_idea;
      project_stage = project_stage input.project_stage;
      stay_preference = stay_preference input.stay_preference;
      preferred_start_month = input.preferred_start_month;
      community_contribution = trim input.community_contribution;
      accessibility_or_accommodation_notes = input.accessibility_or_accommodation_notes;
      allergy_notes = input.allergy_notes;
      noise_sensitivity = sensitivity_level input.noise_sensitivity;
      light_sensitivity = sensitivity_level input.light_sensitivity;
      room_preference_notes = input.room_preference_notes;
      roommate_preference = roommate_preference input.roommate_preference;
      preferred_room_occupancy = occupancy;
      roommate_for_lower_cost = input.roommate_for_lower_cost;
      roommate_for_social_connection = input.roommate_for_social_connection;
      accommodation_data_consent = input.accommodation_data_consent;
      resume_upload_id = input.resume_upload_id;
      photo_id_upload_id = input.photo_id_upload_id;
      age_and_identity_attestation = input.age_and_identity_attestation;
      privacy_notice_version = input.privacy_notice_version;
    };
  }

  unfoldable pub store_application : Command StoredSubmission
  store_application = do
    lift (map_err validation (contract.validate_application input))
    occupancy ← lift (to_i16 input.preferred_room_occupancy)
    in_transaction self λ tx. do
      require_verified_uploads self context input tx
      stored ← insert_or_replay self application_table context (application_row occupancy)
      maybe_insert_outbox self target application stored context
      pure stored
