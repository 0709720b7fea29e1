-- ===== src/Persistence/Submit/Laws.antt =====
-- `insert_or_replay` and the outbox, against the rows that they find and leave.
use hhm_api_server_rs.Common.{
  ℕ, ◌+◌, ◌≡◌, Bool, true, false, none, some, ◌∷◌, Text, arith, text_eq_iff,
}
use hhm_api_server_rs.Common.Result.{ok}
use hhm_api_server_rs.Persistence.Context.{SubmissionContext}
use hhm_api_server_rs.Persistence.Rows.{Row, Db, Table}
use hhm_api_server_rs.Persistence.Session.{WriteContext, Session, QueryResult, query_one}
use hhm_api_server_rs.Persistence.Submit.{
  StoredSubmission, find_key, insert_or_replay, replay_submission, stored_from_row,
  require_same_payload,
}

abbrev pub submission_of : {P : Type 0} → Row P → Bool → StoredSubmission
submission_of row replayed = record {
  id = row.id;
  accepted_at = row.accepted_at;
  replayed = replayed;
}

module _ (self : WriteContext) {P : Type 0} where
  stored_from_row-eq-ok :
      (row : QueryResult (Row P)) (replayed : Bool) {stored : StoredSubmission}
      → stored_from_row self row replayed ≡ ok stored
      → stored ≡ submission_of row.columns replayed
  unfolding stored_from_row
  stored_from_row-eq-ok row replayed h = ground arith

  require_same_payload-eq-ok :
      (row : QueryResult (Row P)) (expected : Text)
      → require_same_payload self row expected ≡ ok tt
      → row.columns.payload_sha256 ≡ expected
  unfolding require_same_payload
  require_same_payload-eq-ok row expected h =
      ground (arith, text_eq_iff row.columns.payload_sha256 expected)

  module _ (table : Table P) (context : SubmissionContext) where
    pub replay-eq-ok :
        (s : Session) {stored : StoredSubmission} {s' : Session} {r : Row P}
        → find_key context.idempotency_key (table.rows s.db) ≡ some r
        → replay_submission self table context none s ≡ (ok stored, s')
        → (r.payload_sha256 ≡ context.payload_sha256)
          × (stored ≡ submission_of r true)
          × (s'.db ≡ s.db)
    unfolding replay_submission query_one
    replay-eq-ok s {r} found h = ground (arith, text_eq_iff r.payload_sha256 context.payload_sha256)

    -- The row that the call would insert, by the number of the call.
    module _ (values : ℕ → Row P)
        (keyed : (n : ℕ) → (values n).idempotency_key ≡ context.idempotency_key)
        (same : (db : Db) → table.set_rows (table.rows db) db ≡ db) where
      pub insert_fresh :
          (s : Session) {stored : StoredSubmission} {s' : Session}
          → find_key context.idempotency_key (table.rows s.db) ≡ none
          → insert_or_replay self table context values s ≡ (ok stored, s')
          → (stored ≡ submission_of (values s.calls) false)
            × (s'.db ≡ table.set_rows (values s.calls ∷ table.rows s.db) s.db)
      unfolding insert_or_replay replay_submission query_one
      insert_fresh s missing h =
          let absent : find_key (values s.calls).idempotency_key (table.rows s.db) ≡ none =
            rw keyed missing in
          ground arith

      pub insert_again :
          (s : Session) {stored : StoredSubmission} {s' : Session} {r : Row P}
          → find_key context.idempotency_key (table.rows s.db) ≡ some r
          → insert_or_replay self table context values s ≡ (ok stored, s')
          → (r.payload_sha256 ≡ context.payload_sha256)
            × (stored ≡ submission_of r true)
            × (s'.db ≡ s.db)
      unfolding insert_or_replay query_one
      insert_again s {stored} {s'} {r} found h =
          let present : find_key (values s.calls).idempotency_key (table.rows s.db) ≡ some r =
            rw keyed found in
          ground (
            arith,
            same s.db,
            replay-eq-ok (record { db = s.db; calls = s.calls + 1 }) {stored = stored} {s' = s'}
                {r = r} found,
          )
