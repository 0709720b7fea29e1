-- ===== src/Tests/Data.antt =====
-- The environment, the requests and the databases of the concrete runs.
use hhm_api_server_rs.Common.{ℕ, pos, true, none, some, List, [], ◌∷◌, String, Text, codes}
use hhm_api_server_rs.Common.Result.{ok}
use hhm_api_server_rs.Http.{Url, missing, visible, HeaderMap, Response, Introspection, Outside}
use hhm_api_server_rs.Persistence.Kinds.{resume, three_months, idea, low, flexible}
use hhm_api_server_rs.Persistence.Context.{Uuid, SubmissionContext}
use hhm_api_server_rs.Persistence.Inputs.{
  Contract, PreInterestCreate, ApplicationCreate, ReferralCreate, UploadIntentCreate,
  UploadCompleteCreate,
}
use hhm_api_server_rs.Persistence.Rows.{UploadRow, OutboxRow, empty_db}
use hhm_api_server_rs.Persistence.Session.{fine, refused, WriteContext, Session}
use hhm_api_server_rs.Api.State.{AppState, World}
use hhm_api_server_rs.Api.Request.{object, Json}

abbrev pub key_text : Text
key_text = codes "key-0123456789abcdef"

-- The SHA-256 of these runs, and its text.
abbrev pub constant_sha256 : List ℕ → List ℕ
constant_sha256 _ =
    0 ∷ 0 ∷ 0 ∷ 0 ∷ 0 ∷ 0 ∷ 0 ∷ 0 ∷ 0 ∷ 0 ∷ 0 ∷ 0 ∷ 0 ∷ 0 ∷ 0 ∷ 0 ∷ 0 ∷ 0 ∷ 0 ∷ 0 ∷ 0 ∷ 0 ∷ 0 ∷ 0
    ∷ 0 ∷ 0 ∷ 0 ∷ 0 ∷ 0 ∷ 0 ∷ 0 ∷ 0 ∷ []

abbrev pub digest_text : Text
digest_text = codes "0000000000000000000000000000000000000000000000000000000000000000"

abbrev pub page : Url
page = record {
  scheme = codes "https";
  username = [];
  password = none;
  host_str = some (codes "hhaus.org");
  path = codes "/";
  query = none;
  fragment = none;
  query_keys = [];
}

abbrev pub pdf : Response
pdf = record {
  status = 200;
  content_type = visible (codes "application/pdf");
  content_length = some 3;
  chunks = some (37 ∷ 80 ∷ []) ∷ some (68 ∷ []) ∷ [];
}

abbrev pub introspection : Introspection
introspection = record {
  active = true;
  sub = some (codes "user-1");
  aud = some (codes "hhm");
  scope = some (codes "openid hhm:intake:write");
}

abbrev pub services : Outside
services = record {
  parse_url = λ _. some page;
  join_url = λ base _. some base;
  sha256 = constant_sha256;
  introspect = λ _. some pdf;
  parse_introspection = λ _. some introspection;
  siteverify = λ _. some (
    200,
    some (record { success = true; hostname = codes "hhaus.org"; action = codes "intake" }),
  );
  sign_upload = λ _. some (200, some (codes "https://db/storage/v1/object/upload/sign/x?token=t"));
  download = λ _. some pdf;
}

abbrev pub accepting : Contract
accepting = record {
  validate_pre_interest = λ _. ok tt;
  validate_upload_intent = λ _. ok tt;
  validate_upload_complete = λ _. ok tt;
  validate_application = λ _. ok tt;
  validate_referral = λ _. ok tt;
  uuid_text = λ _. codes "00000000-0000-4000-8000-000000000000";
}

-- A connection on which no call fails, with a clock that counts the calls.
abbrev pub healthy : WriteContext
healthy = record {
  outcome = λ _. fine;
  decodes = λ _ _. true;
  timestamp = λ n. n;
  accepted_default = λ n. n;
  attempts_default = 0;
  status_default = "pending";
  next_attempt_default = λ n. n;
}

-- A connection on which every call is refused.
abbrev pub down : WriteContext
down = record healthy { outcome = λ _. refused }

abbrev pub state : AppState
state = record {
  primary = healthy;
  supabase = healthy;
  audience = codes "hhm";
  expected_action = codes "intake";
  project_url = page;
  contract = accepting;
  outside = services;
}

abbrev pub public_headers : HeaderMap
public_headers = record {
  authorization = missing;
  origin = visible (codes "https://hhaus.org");
  idempotency_key = visible key_text;
}

abbrev pub user_headers : HeaderMap
user_headers = record public_headers { authorization = visible (codes "Bearer secret") }

abbrev pub json : {I : Type 0} → Json I
json = record {
  to_value = λ _. some (object (("turnstileToken", codes "x") ∷ []));
  value_to_vec = λ _. some (1 ∷ []);
  to_vec = λ _. some (1 ∷ []);
}

abbrev pub context : SubmissionContext
context = record {
  canonical_id = 7;
  subject = none;
  idempotency_key = key_text;
  payload_sha256 = digest_text;
  source_host = codes "hhaus.org";
}

abbrev pub pre_interest : PreInterestCreate
pre_interest = record {
  email = codes " a@b.co ";
  linkedin_url = [];
  entrepreneurship_idea = [];
  stay_preference = three_months;
  privacy_notice_version = codes "1";
  turnstile_token = some (codes "proof");
}

abbrev pub referral : ReferralCreate
referral = record {
  referee_name = codes "Ann";
  referee_email = codes "a@b.co";
  referee_linkedin_url = [];
  relationship = [];
  rationale = [];
  stay_preference = none;
  nominee_consent_confirmed = true;
}

abbrev pub application : ApplicationCreate
application = record {
  email = codes "a@b.co";
  linkedin_url = [];
  legal_name = codes "Ann";
  date_of_birth = 0;
  nationality = [];
  phone = [];
  current_city = [];
  github_url = none;
  portfolio_url = none;
  entrepreneurship_idea = [];
  project_stage = idea;
  stay_preference = three_months;
  preferred_start_month = 0;
  community_contribution = [];
  accessibility_or_accommodation_notes = none;
  allergy_notes = none;
  noise_sensitivity = low;
  light_sensitivity = low;
  room_preference_notes = none;
  roommate_preference = flexible;
  preferred_room_occupancy = pos 2;
  roommate_for_lower_cost = true;
  roommate_for_social_connection = true;
  accommodation_data_consent = true;
  resume_upload_id = 1;
  photo_id_upload_id = 2;
  age_and_identity_attestation = true;
  privacy_notice_version = codes "1";
  turnstile_token = some (codes "proof");
}

abbrev pub intent : UploadIntentCreate
intent = record {
  kind = resume;
  sha256 = digest_text;
  content_type = codes "application/pdf";
  size_bytes = 3;
  turnstile_token = some (codes "proof");
}

abbrev pub completion : UploadCompleteCreate
completion = record { sha256 = digest_text; turnstile_token = some (codes "proof") }

abbrev pub upload_of_kind : Uuid → String → String → UploadRow
upload_of_kind id kind status = record {
  id = id;
  idempotency_key = key_text;
  payload_sha256 = digest_text;
  applicant_subject = none;
  kind = kind;
  object_key = codes "pending/0/x";
  content_sha256 = digest_text;
  content_type = codes "application/pdf";
  size_bytes = pos 3;
  status = status;
  expires_at = 1000;
  uploaded_at = none;
  verified_at = none;
}

abbrev pub empty : Session
empty = record { db = empty_db; calls = 0 }

abbrev pub with_uploads : Session
with_uploads = record {
  db = record empty_db {
    uploads = upload_of_kind 1 "resume" "verified" ∷ upload_of_kind 2 "photo_id" "verified" ∷ [];
  };
  calls = 0;
}

abbrev pub with_pending : Session
with_pending = record {
  db = record empty_db { uploads = upload_of_kind 5 "resume" "pending" ∷ [] };
  calls = 0;
}

-- Both databases in the same session.
abbrev pub both : Session → World
both s = record { primary = s; supabase = s }

-- An entry that was tried 99 times, for the submission 7.
abbrev pub tired : OutboxRow
tired = record {
  submission_kind = "pre_interest";
  submission_id = 7;
  payload_sha256 = digest_text;
  attempts = 99;
  mirror_status = "retryable_failure";
  next_attempt_at = 0;
  last_error_code = none;
}

abbrev pub with_tired : Session
with_tired = record { db = record empty_db { outbox = tired ∷ [] }; calls = 0 }
