-- ===== src/Persistence/Outbox/Marks.antt =====
-- src/persistence.rs: the outbox entries that `mark_mirrored` and `record_mirror_failure` leave.
use hhm_api_server_rs.Common.{
  ℕ, ◌≤◌, ◌<◌, ◌≡◌, refl, ◌⊎◌, inl, inr, true, none, some, String-Eq, Text, Text-Eq, arith, leb,
  Bool-cases, text_eq_iff,
}
use hhm_api_server_rs.Persistence.Kinds.{StoredSubmissionKind, database_value}
use hhm_api_server_rs.Persistence.Context.{Uuid}
use hhm_api_server_rs.Persistence.Rows.{OutboxRow}
use hhm_api_server_rs.Persistence.Outbox.{
  is_settled_entry, mirrored_entry, is_open_entry, failed_entry,
}
use hhm_api_server_rs.Persistence.Outbox.Schedule.{backoff_bounds}

module _ (kind : StoredSubmissionKind) (id : Uuid) where
  -- An entry of the submission and payload that is marked as mirrored, with no error.
  pub record IsMarked (payload : Text) (e : OutboxRow) : Type 0 where
    pub of_kind : e.submission_kind ≡ database_value kind
    pub of_submission : e.submission_id ≡ id
    pub of_payload : e.payload_sha256 ≡ payload
    pub mirrored : e.mirror_status ≡ "mirrored"
    pub no_error : e.last_error_code ≡ none

  -- An entry of the submission that counts a failure at the time `now`: it has the error, it is due
  -- later, and it failed for good exactly if this was the attempt 100.
  pub record IsDelayed (now : ℕ) (code : Text) (e : OutboxRow) : Type 0 where
    pub of_kind : e.submission_kind ≡ database_value kind
    pub of_submission : e.submission_id ≡ id
    pub tried : (1 ≤ e.attempts) × (e.attempts ≤ 100)
    pub status :
        ((e.attempts < 100) × (e.mirror_status ≡ "retryable_failure"))
        ⊎ ((e.attempts ≡ 100) × (e.mirror_status ≡ "terminal_failure"))
    pub due : now < e.next_attempt_at
    pub error : e.last_error_code ≡ some code

  pub mirrored-IsMarked :
      (payload : Text) (e : OutboxRow)
      → is_settled_entry kind id payload e ≡ true
      → IsMarked payload (mirrored_entry e)
  mirrored-IsMarked payload e h = record {
    of_kind = ground (arith, String-Eq.decides e.submission_kind (database_value kind));
    of_submission = ground arith;
    of_payload = ground (arith, text_eq_iff e.payload_sha256 payload);
    mirrored = refl;
    no_error = refl;
  }

  pub failed-IsDelayed :
      (now : ℕ) (code : Text) (e : OutboxRow)
      → is_open_entry kind id e ≡ true
      → IsDelayed now code (failed_entry now code e)
  failed-IsDelayed now code e h = record {
    of_kind = ground (arith, String-Eq.decides e.submission_kind (database_value kind));
    of_submission = ground arith;
    tried = ground arith;
    status = elim (Bool-cases (leb 99 e.attempts)) [
      | inl late ↦ rw late (inr (ground (arith, late, h), refl))
      | inr early ↦ rw early (inl (ground (arith, early), refl))
    ];
    due = omega (arith, backoff_bounds e.attempts);
    error = refl;
  }
