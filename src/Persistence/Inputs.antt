-- ===== src/Persistence/Inputs.antt =====
-- The request bodies of the contract crate `hhm-interfaces`, as far as the program reads them, and
-- the operations of other crates that persistence calls.
use hhm_api_server_rs.Common.{ℕ, ℤ, Bool, Option, Text}
use hhm_api_server_rs.Common.Result.{Result}
use hhm_api_server_rs.Persistence.Kinds.{
  StayPreference, UploadKind, ProjectStage, SensitivityLevel, RoommatePreference,
}
use hhm_api_server_rs.Persistence.Context.{Uuid}

pub record PreInterestCreate : Type 0 where
  pub email : Text
  pub linkedin_url : Text
  pub entrepreneurship_idea : Text
  pub stay_preference : StayPreference
  pub privacy_notice_version : Text
  pub turnstile_token : Option Text

pub record UploadIntentCreate : Type 0 where
  pub kind : UploadKind
  pub sha256 : Text
  pub content_type : Text
  pub size_bytes : ℕ
  pub turnstile_token : Option Text

pub record UploadCompleteCreate : Type 0 where
  pub sha256 : Text
  pub turnstile_token : Option Text

-- Dates are taken as numbers of days; the program only passes them on.
pub record ApplicationCreate : Type 0 where
  pub email : Text
  pub linkedin_url : Text
  pub legal_name : Text
  pub date_of_birth : ℕ
  pub nationality : Text
  pub phone : Text
  pub current_city : Text
  pub github_url : Option Text
  pub portfolio_url : Option Text
  pub entrepreneurship_idea : Text
  pub project_stage : ProjectStage
  pub stay_preference : StayPreference
  pub preferred_start_month : ℕ
  pub community_contribution : Text
  pub accessibility_or_accommodation_notes : Option Text
  pub allergy_notes : Option Text
  pub noise_sensitivity : SensitivityLevel
  pub light_sensitivity : SensitivityLevel
  pub room_preference_notes : Option Text
  pub roommate_preference : RoommatePreference
  pub preferred_room_occupancy : ℤ
  pub roommate_for_lower_cost : Bool
  pub roommate_for_social_connection : Bool
  pub accommodation_data_consent : Bool
  pub resume_upload_id : Uuid
  pub photo_id_upload_id : Uuid
  pub age_and_identity_attestation : Bool
  pub privacy_notice_version : Text
  pub turnstile_token : Option Text

pub record ReferralCreate : Type 0 where
  pub referee_name : Text
  pub referee_email : Text
  pub referee_linkedin_url : Text
  pub relationship : Text
  pub rationale : Text
  pub stay_preference : Option StayPreference
  pub nominee_consent_confirmed : Bool

-- `validate` of each request type, with the error's text, and the text form of a `Uuid`.
pub record Contract : Type 0 where
  pub validate_pre_interest : PreInterestCreate → Result Text (Unit {0})
  pub validate_upload_intent : UploadIntentCreate → Result Text (Unit {0})
  pub validate_upload_complete : UploadCompleteCreate → Result Text (Unit {0})
  pub validate_application : ApplicationCreate → Result Text (Unit {0})
  pub validate_referral : ReferralCreate → Result Text (Unit {0})
  pub uuid_text : Uuid → Text
