-- ===== src/Persistence/Kinds.antt =====
-- src/persistence.rs: the enumerations and the values that they have in the database.
use hhm_api_server_rs.Common.{Bool, true, false, String}

pub data PersistenceTarget : Type 0 where
  primary supabase_mirror : PersistenceTarget

abbrev pub mirror_status : PersistenceTarget → String
mirror_status primary = "pending"
mirror_status supabase_mirror = "mirrored"

abbrev pub creates_outbox : PersistenceTarget → Bool
creates_outbox primary = true
creates_outbox supabase_mirror = false

pub data StoredSubmissionKind : Type 0 where
  pre_interest upload application referral : StoredSubmissionKind

abbrev pub database_value : StoredSubmissionKind → String
database_value pre_interest = "pre_interest"
database_value upload = "upload"
database_value application = "application"
database_value referral = "referral"

pub data StayPreference : Type 0 where
  three_months six_months : StayPreference

abbrev pub stay_preference : StayPreference → String
stay_preference three_months = "three_months"
stay_preference six_months = "six_months"

pub data UploadKind : Type 0 where
  resume photo_id : UploadKind

abbrev pub upload_kind : UploadKind → String
upload_kind resume = "resume"
upload_kind photo_id = "photo_id"

pub data ProjectStage : Type 0 where
  idea prototype early_revenue growing nonprofit_or_open_source : ProjectStage

abbrev pub project_stage : ProjectStage → String
project_stage idea = "idea"
project_stage prototype = "prototype"
project_stage early_revenue = "early_revenue"
project_stage growing = "growing"
project_stage nonprofit_or_open_source = "nonprofit_or_open_source"

pub data SensitivityLevel : Type 0 where
  none low moderate high prefer_not_to_say : SensitivityLevel

abbrev pub sensitivity_level : SensitivityLevel → String
sensitivity_level none = "none"
sensitivity_level low = "low"
sensitivity_level moderate = "moderate"
sensitivity_level high = "high"
sensitivity_level prefer_not_to_say = "prefer_not_to_say"

pub data RoommatePreference : Type 0 where
  private_room open_to_roommates prefer_roommates flexible : RoommatePreference

abbrev pub roommate_preference : RoommatePreference → String
roommate_preference private_room = "private_room"
roommate_preference open_to_roommates = "open_to_roommates"
roommate_preference prefer_roommates = "prefer_roommates"
roommate_preference flexible = "flexible"
