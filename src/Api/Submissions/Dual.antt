-- ===== src/Api/Submissions/Dual.antt =====
-- What the two databases hold for one submission, and how the status updates leave it.
use hhm_api_server_rs.Common.{
  ℕ, ◌≡◌, refl, Bool, Option, Text, Text-Eq, ℕ-Eq, String, modify_where, String-Eq, if◌then◌else◌,
}
use hhm_api_server_rs.Persistence.Kinds.{StoredSubmissionKind, pre_interest, application, referral}
use hhm_api_server_rs.Persistence.Context.{Uuid, SubmissionContext}
use hhm_api_server_rs.Persistence.Rows.{
  Row, OutboxRow, Db, Table, pre_interest_table, application_table, referral_table,
}
use hhm_api_server_rs.Persistence.Replay.{Holds}
use hhm_api_server_rs.Persistence.Invariant.Held.{find_key-set_status, either}
use hhm_api_server_rs.Persistence.Outbox.{same_submission, set_status, update_status}
use hhm_api_server_rs.Persistence.Outbox.Laws.{updated}

-- The table is the one that a kind's status updates change.
pub record IsTableOf {P : Type 0} (kind : StoredSubmissionKind) (table : Table P) : Type 0 where
  pub rows_of :
      (id : Uuid) (status : String) (payload : Option Text) (test : OutboxRow → Bool)
      (change : OutboxRow → OutboxRow) (db : Db)
      → table.rows (updated kind id status payload test change db)
        ≡ modify_where (same_submission id payload) (set_status status) (table.rows db)

pub pre_interest-IsTableOf : IsTableOf pre_interest pre_interest_table
unfolding update_status
pre_interest-IsTableOf = record { rows_of = λ id status payload test change db. refl }

pub application-IsTableOf : IsTableOf application application_table
unfolding update_status
application-IsTableOf = record { rows_of = λ id status payload test change db. refl }

pub referral-IsTableOf : IsTableOf referral referral_table
unfolding update_status
referral-IsTableOf = record { rows_of = λ id status payload test change db. refl }

module _ {P : Type 0} {kind : StoredSubmissionKind} {table : Table P}
    (of_kind : IsTableOf kind table) (context : SubmissionContext) where
  -- A held row stays held.
  pub Holds-updated :
      (id i : Uuid) (at : ℕ) (status : String) (payload : Option Text) (test : OutboxRow → Bool)
      (change : OutboxRow → OutboxRow) (db : Db)
      → Holds table context i at db
      → Holds table context i at (updated kind id status payload test change db)
  Holds-updated id i at status payload test change db h =
      let changed = set_status status h.row in
      let hit = same_submission id payload h.row in
      record {
        row = if hit then changed else h.row;
        found = rw (of_kind.rows_of id status payload test change db) (
            find_key-set_status context.idempotency_key (same_submission id payload) status
              (table.rows db) h.found);
        paid = either (λ (r : Row P). r.payload_sha256 ≡ context.payload_sha256) hit h.paid h.paid;
        named = either (λ (r : Row P). r.id ≡ i) hit h.named h.named;
        timed = either (λ (r : Row P). r.accepted_at ≡ at) hit h.timed h.timed;
      }
