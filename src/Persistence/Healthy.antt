-- ===== src/Persistence/Healthy.antt =====
-- What a submission answers where no call to the database fails and every column can be read.
use hhm_api_server_rs.Common.{
  ℕ, ◌+◌, ◌≡◌, refl, ◌∙◌, true, false, Option, none, some, Text, Text-Eq, String, arith, ◌==◌,
  if◌then◌else◌, Option-cases, inl, inr,
}
use hhm_api_server_rs.Common.Result.{Result, ok, err, panic, pure, continue, ◌>>◌}
use hhm_api_server_rs.Persistence.Error.{DataError, idempotency_conflict}
use hhm_api_server_rs.Persistence.Kinds.{PersistenceTarget, StoredSubmissionKind, pre_interest}
use hhm_api_server_rs.Persistence.Context.{SubmissionContext}
use hhm_api_server_rs.Persistence.Inputs.{Contract, PreInterestCreate}
use hhm_api_server_rs.Persistence.Rows.{Row, Db, Table, pre_interest_table}
use hhm_api_server_rs.Persistence.Session.{
  fine, WriteContext, Session, Command, DatabaseTransaction, tick, finish, in_transaction,
  query_one, statement,
}
use hhm_api_server_rs.Persistence.Session.Laws.{begun}
use hhm_api_server_rs.Persistence.Submit.{
  StoredSubmission, find_key, insert_or_replay, replay_submission, maybe_insert_outbox,
  pre_interest_row, store_pre_interest,
}
use hhm_api_server_rs.Persistence.Submit.Laws.{submission_of}
use hhm_api_server_rs.Persistence.Submit.Recorded.{submit_body}

-- The answer by the row that the key names, if it names one.
abbrev pub expected_reply :
    {P : Type 0} → Option (Row P) → Row P → Text → Result DataError StoredSubmission
expected_reply none new payload = ok (submission_of new false)
expected_reply (some r) new payload =
    if r.payload_sha256 == payload then ok (submission_of r true) else err idempotency_conflict

module _ (self : WriteContext) (healthy : (n : ℕ) → self.outcome n ≡ fine)
    (decodable : (n : ℕ) (column : String) → self.decodes n column ≡ true) where
  module _ {P : Type 0} (table : Table P) (context : SubmissionContext) where
    replay_healthy :
        (s : Session) (new r : Row P)
        → find_key context.idempotency_key (table.rows s.db) ≡ some r
        → (replay_submission self table context none s).0
          ≡ expected_reply (some r) new context.payload_sha256
    unfolding replay_submission query_one
    replay_healthy s new r found = ground (
      arith,
      healthy s.calls,
      decodable s.calls "payload_sha256",
      decodable s.calls "id",
      decodable s.calls "accepted_at",
    )

    module _ (values : ℕ → Row P)
        (keyed : (n : ℕ) → (values n).idempotency_key ≡ context.idempotency_key)
        (same : (db : Db) → table.set_rows (table.rows db) db ≡ db) where
      insert_fresh_healthy :
          (s : Session)
          → find_key context.idempotency_key (table.rows s.db) ≡ none
          → (insert_or_replay self table context values s).0
            ≡ ok (submission_of (values s.calls) false)
      unfolding insert_or_replay replay_submission query_one
      insert_fresh_healthy s missing =
          let absent : find_key (values s.calls).idempotency_key (table.rows s.db) ≡ none =
            rw keyed missing in
          ground (arith, healthy s.calls, decodable s.calls "id", decodable s.calls "accepted_at")

      insert_again_healthy :
          (s : Session) (r : Row P)
          → find_key context.idempotency_key (table.rows s.db) ≡ some r
          → (insert_or_replay self table context values s).0
            ≡ expected_reply (some r) (values s.calls) context.payload_sha256
      unfolding insert_or_replay query_one
      insert_again_healthy s r found =
          let present : find_key (values s.calls).idempotency_key (table.rows s.db) ≡ some r =
            rw keyed found in
          rw (healthy s.calls, present, same s.db)
            (replay_healthy (record { db = s.db; calls = s.calls + 1 }) (values s.calls) r found)

      insert_healthy :
          (s : Session)
          → (insert_or_replay self table context values s).0
            ≡ expected_reply
                (find_key context.idempotency_key (table.rows s.db))
                (values s.calls)
                context.payload_sha256
      insert_healthy s = elim (Option-cases (find_key context.idempotency_key (table.rows s.db))) [
        | inl missing ↦ rw missing (insert_fresh_healthy s missing)
        | inr (r, found) ↦ rw found (insert_again_healthy s r found)
      ]

  outbox_healthy :
      (target : PersistenceTarget) (kind : StoredSubmissionKind) (stored : StoredSubmission)
      (context : SubmissionContext) (s : Session)
      → (maybe_insert_outbox self target kind stored context s).0 ≡ ok tt
  unfolding maybe_insert_outbox statement
  outbox_healthy target kind stored context s = ground (arith, healthy s.calls)

  entry_healthy :
      (target : PersistenceTarget) (kind : StoredSubmissionKind) (context : SubmissionContext)
      (r : Result DataError StoredSubmission) (s : Session)
      → (continue r
          (λ stored. maybe_insert_outbox self target kind stored context >> pure stored)
          s).0
        ≡ r
  entry_healthy target kind context (ok stored) s = rw (outbox_healthy target kind stored context s)
  entry_healthy target kind context (err e) s = refl
  entry_healthy target kind context panic s = refl

  finish_healthy :
      {A : Type 0} (tx : DatabaseTransaction) (r : Result DataError A) (s : Session)
      → (finish self tx r s).0 ≡ r
  finish_healthy tx (ok a) s = rw (healthy s.calls)
  finish_healthy tx (err e) s = refl
  finish_healthy tx panic s = refl

  pub in_transaction_healthy :
      {A : Type 0} (body : DatabaseTransaction → Command A) (s : Session)
      → (in_transaction self body s).0 ≡ (body (begun s) (tick s)).0
  unfolding in_transaction
  in_transaction_healthy body s = rw (healthy s.calls) (finish_healthy (begun s) _ _)

  -- On a healthy connection a pre-interest that satisfies the contract always gets an answer, by
  -- the row that its key names: under a new key the new row, not replayed; under a known key with
  -- the same payload digest the stored row, replayed; with another digest a conflict.
  pub store_pre_interest_healthy :
      (contract : Contract) (target : PersistenceTarget) (context : SubmissionContext)
      (input : PreInterestCreate) (s : Session)
      → contract.validate_pre_interest input ≡ ok tt
      → (store_pre_interest contract self target context input s).0
        ≡ expected_reply
            (find_key context.idempotency_key s.db.pre_interests)
            (pre_interest_row contract self target context input (s.calls + 1))
            context.payload_sha256
  unfolding store_pre_interest
  store_pre_interest_healthy contract target context input s valid =
      let values = pre_interest_row contract self target context input in
      rw valid (
        in_transaction_healthy
          (λ tx. submit_body self target pre_interest pre_interest_table context values) s
        ∙ entry_healthy target pre_interest context _ _
        ∙ insert_healthy pre_interest_table context values (λ n. refl) (λ db. refl) (tick s))
