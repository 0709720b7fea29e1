-- ===== src/Persistence/Rows.antt =====
-- The rows and tables that the SQL of src/persistence.rs names. A column that a statement leaves
-- to the schema's default is filled by the caller of the row's constructor.
use hhm_api_server_rs.Common.{ℕ, ℤ, Bool, String, Option, List, [], Text}
use hhm_api_server_rs.Persistence.Context.{Uuid}

-- A row of `hhm_pre_interests`, `hhm_applications` or `hhm_referrals`; `columns` are those of the
-- one table. Times are in seconds.
pub record Row (P : Type 0) : Type 0 where
  pub id : Uuid
  pub idempotency_key : Text
  pub payload_sha256 : Text
  pub subject : Option Text
  pub mirror_status : String
  pub accepted_at : ℕ
  pub columns : P

pub record PreInterestColumns : Type 0 where
  pub email : Text
  pub linkedin_url : Text
  pub entrepreneurship_idea : Text
  pub stay_preference : String
  pub privacy_notice_version : Text
  pub source_host : Text

pub record ApplicationColumns : Type 0 where
  pub email : Text
  pub linkedin_url : Text
  pub legal_name : Text
  pub date_of_birth : ℕ
  pub nationality : Text
  pub phone : Text
  pub current_city : Text
  pub github_url : Option Text
  pub portfolio_url : Option Text
  pub entrepreneurship_idea : Text
  pub project_stage : String
  pub stay_preference : String
  pub preferred_start_month : ℕ
  pub community_contribution : Text
  pub accessibility_or_accommodation_notes : Option Text
  pub allergy_notes : Option Text
  pub noise_sensitivity : String
  pub light_sensitivity : String
  pub room_preference_notes : Option Text
  pub roommate_preference : String
  pub preferred_room_occupancy : ℤ
  pub roommate_for_lower_cost : Bool
  pub roommate_for_social_connection : Bool
  pub accommodation_data_consent : Bool
  pub resume_upload_id : Uuid
  pub photo_id_upload_id : Uuid
  pub age_and_identity_attestation : Bool
  pub privacy_notice_version : Text

pub record ReferralColumns : Type 0 where
  pub referee_name : Text
  pub referee_email : Text
  pub referee_linkedin_url : Text
  pub relationship : Text
  pub rationale : Text
  pub stay_preference : Option String
  pub nominee_consent_confirmed : Bool

-- A row of `hhm_intake_uploads`.
pub record UploadRow : Type 0 where
  pub id : Uuid
  pub idempotency_key : Text
  pub payload_sha256 : Text
  pub applicant_subject : Option Text
  pub kind : String
  pub object_key : Text
  pub content_sha256 : Text
  pub content_type : Text
  pub size_bytes : ℤ
  pub status : String
  pub expires_at : ℕ
  pub uploaded_at : Option ℕ
  pub verified_at : Option ℕ

-- A row of `hhm_submission_outbox`.
pub record OutboxRow : Type 0 where
  pub submission_kind : String
  pub submission_id : Uuid
  pub payload_sha256 : Text
  pub attempts : ℕ
  pub mirror_status : String
  pub next_attempt_at : ℕ
  pub last_error_code : Option Text

pub record Db : Type 0 where
  pub pre_interests : List (Row PreInterestColumns)
  pub uploads : List UploadRow
  pub applications : List (Row ApplicationColumns)
  pub referrals : List (Row ReferralColumns)
  pub outbox : List OutboxRow

abbrev pub empty_db : Db
empty_db = record {
  pre_interests = [];
  uploads = [];
  applications = [];
  referrals = [];
  outbox = [];
}

-- One table of submissions within the database.
pub record Table (P : Type 0) : Type 0 where
  pub rows : Db → List (Row P)
  pub set_rows : List (Row P) → Db → Db

abbrev pub pre_interest_table : Table PreInterestColumns
pre_interest_table = record {
  rows = λ db. db.pre_interests;
  set_rows = λ rs db. record db { pre_interests = rs };
}

abbrev pub application_table : Table ApplicationColumns
application_table = record {
  rows = λ db. db.applications;
  set_rows = λ rs db. record db { applications = rs };
}

abbrev pub referral_table : Table ReferralColumns
referral_table = record {
  rows = λ db. db.referrals;
  set_rows = λ rs db. record db { referrals = rs };
}
