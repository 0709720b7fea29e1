-- ===== src/Persistence/Submit.antt =====
-- src/persistence.rs: `insert_or_replay`, `maybe_insert_outbox`, `store_pre_interest` and
-- `store_referral`.
pub mod Laws
pub mod Recorded
use hhm_api_server_rs.Common.{
  ℕ, Bool, true, false, not, ◌||◌, Option, none, some, List, ◌∷◌, String, Text, Text-Eq, trim, find,
  ◌==◌, if◌then◌else◌,
}
use hhm_api_server_rs.Common.Result.{
  Result, ok, err, and_then, map_err, ok_or, pure, lift, ◌>>=◌, ◌>>◌,
}
use hhm_api_server_rs.Persistence.Error.{DataError, validation, idempotency_conflict, invariant}
use hhm_api_server_rs.Persistence.Kinds.{
  PersistenceTarget, mirror_status, creates_outbox, StoredSubmissionKind, pre_interest, referral,
  database_value, StayPreference, stay_preference,
}
use hhm_api_server_rs.Persistence.Context.{Uuid, SubmissionContext, subject_text, require_subject}
use hhm_api_server_rs.Persistence.Inputs.{Contract, PreInterestCreate, ReferralCreate}
use hhm_api_server_rs.Persistence.Rows.{
  Row, PreInterestColumns, ReferralColumns, OutboxRow, Db, Table, pre_interest_table,
  referral_table,
}
use hhm_api_server_rs.Persistence.Session.{
  WriteContext, Command, QueryResult, statement, query_one, read, in_transaction,
}

pub record StoredSubmission : Type 0 where
  pub id : Uuid
  pub accepted_at : ℕ
  pub replayed : Bool

module _ {P : Type 0} where
  -- `WHERE idempotency_key = $1`
  abbrev pub find_key : Text → List (Row P) → Option (Row P)
  find_key key rows = find (λ (r : Row P). r.idempotency_key == key) rows

  abbrev pub insert_unless : Option (Row P) → Row P → List (Row P) → Option (Row P) × List (Row P)
  insert_unless none row rows = (some row, row ∷ rows)
  insert_unless (some _) row rows = (none, rows)

  -- `INSERT … ON CONFLICT (idempotency_key) DO NOTHING RETURNING …`
  unfoldable pub insert_row : Row P → List (Row P) → Option (Row P) × List (Row P)
  insert_row row rows = insert_unless (find_key row.idempotency_key rows) row rows

-- A row that is returned as a `StoredSubmission`; `stored_from_row` reads it column by column.
module _ (self : WriteContext) {P : Type 0} where
  unfoldable pub stored_from_row : QueryResult (Row P) → Bool → Result DataError StoredSubmission
  stored_from_row row replayed = and_then (read self row.call "id" row.columns.id) λ id.
      and_then (read self row.call "accepted_at" row.columns.accepted_at)
        λ accepted_at. ok (record { id = id; accepted_at = accepted_at; replayed = replayed })

  unfoldable pub require_same_payload : QueryResult (Row P) → Text → Result DataError (Unit {0})
  require_same_payload row expected =
      and_then (read self row.call "payload_sha256" row.columns.payload_sha256)
        λ found. if found == expected then ok tt else err idempotency_conflict

  module _ (table : Table P) (context : SubmissionContext) where
    unfoldable pub replay_submission : Option (QueryResult (Row P)) → Command StoredSubmission
    unfolding stored_from_row require_same_payload
    replay_submission (some row) = lift (stored_from_row row false)
    replay_submission none = do
      found ← query_one self (λ n db. (find_key context.idempotency_key (table.rows db), db))
      replay ← lift (ok_or invariant found)
      lift (require_same_payload replay context.payload_sha256)
      lift (stored_from_row replay true)

    -- `values` is the row to insert, by the number of the inserting call.
    unfoldable pub insert_or_replay : (ℕ → Row P) → Command StoredSubmission
    unfolding insert_row
    insert_or_replay values = do
      inserted ← query_one self (λ n db.
          let result = insert_row (values n) (table.rows db) in
          (result.0, table.set_rows result.1 db))
      replay_submission inserted

module _ (self : WriteContext) (target : PersistenceTarget) (kind : StoredSubmissionKind) where
  abbrev pub outbox_row : ℕ → Uuid → Text → OutboxRow
  outbox_row n id payload = record {
    submission_kind = database_value kind;
    submission_id = id;
    payload_sha256 = payload;
    attempts = self.attempts_default;
    mirror_status = self.status_default;
    next_attempt_at = self.next_attempt_default n;
    last_error_code = none;
  }

  unfoldable pub maybe_insert_outbox : StoredSubmission → SubmissionContext → Command (Unit {0})
  maybe_insert_outbox stored context =
      if not (creates_outbox target) || stored.replayed
      then pure tt
      else statement self (λ n db.
        (tt, record db { outbox = outbox_row n stored.id context.payload_sha256 ∷ db.outbox }))

module _ (contract : Contract) (self : WriteContext) (target : PersistenceTarget)
    (context : SubmissionContext) where
  abbrev pub pre_interest_row : PreInterestCreate → ℕ → Row PreInterestColumns
  pre_interest_row input n = record {
    id = context.canonical_id;
    idempotency_key = context.idempotency_key;
    payload_sha256 = context.payload_sha256;
    subject = subject_text context.subject;
    mirror_status = mirror_status target;
    accepted_at = self.accepted_default n;
    columns = record {
      email = trim input.email;
      linkedin_url = trim input.linkedin_url;
      entrepreneurship_idea = trim input.entrepreneurship_idea;
      stay_preference = stay_preference input.stay_preference;
      privacy_notice_version = input.privacy_notice_version;
      source_host = context.source_host;
    };
  }

  unfoldable pub store_pre_interest : PreInterestCreate → Command StoredSubmission
  store_pre_interest input = do
    lift (map_err validation (contract.validate_pre_interest input))
    in_transaction self λ tx. do
      stored ← insert_or_replay self pre_interest_table context (pre_interest_row input)
      maybe_insert_outbox self target pre_interest stored context
      pure stored

  abbrev preference : Option StayPreference → Option String
  preference none = none
  preference (some p) = some (stay_preference p)

  abbrev pub referral_row : Text → ReferralCreate → ℕ → Row ReferralColumns
  referral_row subject input n = record {
    id = context.canonical_id;
    idempotency_key = context.idempotency_key;
    payload_sha256 = context.payload_sha256;
    subject = some subject;
    mirror_status = mirror_status target;
    accepted_at = self.accepted_default n;
    columns = record {
      referee_name = trim input.referee_name;
      referee_email = trim input.referee_email;
      referee_linkedin_url = trim input.referee_linkedin_url;
      relationship = trim input.relationship;
      rationale = trim input.rationale;
      stay_preference = preference input.stay_preference;
      nominee_consent_confirmed = input.nominee_consent_confirmed;
    };
  }

  unfoldable pub store_referral : ReferralCreate → Command StoredSubmission
  store_referral input = do
    lift (map_err validation (contract.validate_referral input))
    subject ← lift (require_subject context)
    in_transaction self λ tx. do
      stored ← insert_or_replay self referral_table context (referral_row subject input)
      maybe_insert_outbox self target referral stored context
      pure stored
