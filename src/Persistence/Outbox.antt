-- ===== src/Persistence/Outbox.antt =====
-- src/persistence.rs: `mark_mirrored` and `record_mirror_failure`.
pub mod Laws
pub mod Marks
pub mod Schedule
pub mod Retries
pub mod Healthy
use hhm_api_server_rs.Common.{
  ℕ, ◌+◌, ◌^◌, min, Bool, true, false, not, ◌&&◌, ◌||◌, Option, none, some, List, String, Text,
  Text-Eq, String-Eq, ℕ-Eq, bytes, len, all, is_empty, is_ascii_digit, is_ascii_lowercase,
  count_where, modify_where, ltb, leb, nat_eq, ◌==◌, if◌then◌else◌,
}
use hhm_api_server_rs.Common.Result.{pure, raise, ◌>>=◌, ◌>>◌}
use hhm_api_server_rs.Persistence.Error.{invalid_context, invariant}
use hhm_api_server_rs.Persistence.Kinds.{
  StoredSubmissionKind, pre_interest, upload, application, referral, database_value,
}
use hhm_api_server_rs.Persistence.Context.{Uuid}
use hhm_api_server_rs.Persistence.Rows.{Row, OutboxRow, Db}
use hhm_api_server_rs.Persistence.Session.{WriteContext, Command, statement, in_transaction}

abbrev pub is_upload : StoredSubmissionKind → Bool
is_upload upload = true
is_upload _ = false

module _ {P : Type 0} where
  -- `WHERE id = $1`, with `AND payload_sha256 = $2` where a payload is given.
  abbrev pub same_submission : Uuid → Option Text → Row P → Bool
  same_submission id none row = row.id == id
  same_submission id (some payload) row = row.id == id && row.payload_sha256 == payload

  abbrev pub set_status : String → Row P → Row P
  set_status status row = record row { mirror_status = status }

  abbrev pub update_rows : String → Uuid → Option Text → List (Row P) → ℕ × List (Row P)
  update_rows status id payload rows = (
    count_where (same_submission id payload) rows,
    modify_where (same_submission id payload) (set_status status) rows,
  )

-- `UPDATE {table_name} SET mirror_status = … WHERE …`, the table chosen by the kind.
unfoldable pub update_status : StoredSubmissionKind → String → Uuid → Option Text → Db → ℕ × Db
update_status pre_interest status id payload db =
    let result = update_rows status id payload db.pre_interests in
    (result.0, record db { pre_interests = result.1 })
update_status application status id payload db =
    let result = update_rows status id payload db.applications in
    (result.0, record db { applications = result.1 })
update_status referral status id payload db =
    let result = update_rows status id payload db.referrals in
    (result.0, record db { referrals = result.1 })
update_status upload status id payload db = (0, db)

abbrev pub is_entry : StoredSubmissionKind → Uuid → OutboxRow → Bool
is_entry kind id row = row.submission_kind == database_value kind && row.submission_id == id

abbrev pub mirrored_entry : OutboxRow → OutboxRow
mirrored_entry row = record row { mirror_status = "mirrored"; last_error_code = none }

-- `LEAST(3600, (1 << LEAST(attempts, 11)))`, in seconds.
abbrev pub backoff : ℕ → ℕ
backoff attempts = min 3600 (2 ^ min attempts 11)

abbrev pub failed_entry : ℕ → Text → OutboxRow → OutboxRow
failed_entry now error_code row = record row {
  attempts = row.attempts + 1;
  mirror_status = if leb 99 row.attempts then "terminal_failure" else "retryable_failure";
  next_attempt_at = now + backoff row.attempts;
  last_error_code = some error_code;
}

abbrev pub is_open_entry : StoredSubmissionKind → Uuid → OutboxRow → Bool
is_open_entry kind id row = is_entry kind id row && ltb row.attempts 100

abbrev pub is_settled_entry : StoredSubmissionKind → Uuid → Text → OutboxRow → Bool
is_settled_entry kind id payload row = is_entry kind id row && row.payload_sha256 == payload

abbrev pub valid_error_code : Text → Bool
valid_error_code code =
    not (is_empty code)
    && leb (len code) 64
    && all (λ b. is_ascii_lowercase b || is_ascii_digit b || nat_eq b b'_') (bytes code)

module _ (self : WriteContext) (kind : StoredSubmissionKind) (id : Uuid) where
  -- The update of the submission's own table, which must change one row; uploads have none.
  unfoldable pub update_submission : String → Option Text → Command (Unit {0})
  unfolding update_status
  update_submission status payload = if is_upload kind then pure tt else do
    rows_affected ← statement self (λ n db. update_status kind status id payload db)
    if rows_affected == 1 then pure tt else raise invariant

  -- The update of the outbox, which must change one entry.
  unfoldable pub update_entry : (OutboxRow → Bool) → (OutboxRow → OutboxRow) → Command (Unit {0})
  update_entry test change = do
    rows_affected ← statement self (λ n db.
        (count_where test db.outbox, record db { outbox = modify_where test change db.outbox }))
    if rows_affected == 1 then pure tt else raise invariant

  unfoldable pub mark_mirrored : Text → Command (Unit {0})
  unfolding update_submission update_entry
  mark_mirrored payload_sha256 = in_transaction self λ tx. do
    update_submission "mirrored" (some payload_sha256)
    update_entry (is_settled_entry kind id payload_sha256) mirrored_entry

  unfoldable pub record_mirror_failure : Text → Command (Unit {0})
  unfolding update_submission update_entry
  record_mirror_failure error_code =
      if not (valid_error_code error_code)
      then raise (invalid_context "mirror_error_code")
      else in_transaction self λ tx. do
        update_submission "retryable_failure" none
        update_entry (is_open_entry kind id) (failed_entry (self.timestamp tx.started) error_code)
