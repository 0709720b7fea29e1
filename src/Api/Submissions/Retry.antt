-- ===== src/Api/Submissions/Retry.antt =====
-- src/api.rs: the retry of a submission that the mirror missed.
use hhm_api_server_rs.Common.{
  false, ◌+◌, ◌⊎◌, ◌∙◌, none, some, String, text_eq_iff, ℕ, ◌≡◌, refl, arith, true, Text,
  count_where, ◌==◌, Text-Eq, ℕ-Eq, inl, inr,
}
use hhm_api_server_rs.Common.Result.{ok}
use hhm_api_server_rs.Persistence.Kinds.{
  PersistenceTarget, primary, supabase_mirror, StoredSubmissionKind, pre_interest,
}
use hhm_api_server_rs.Persistence.Context.{Uuid, SubmissionContext, with_canonical_id}
use hhm_api_server_rs.Persistence.Session.{fine, WriteContext, Session, Command}
use hhm_api_server_rs.Persistence.Rows.{Row, Db, Table, PreInterestColumns}
use hhm_api_server_rs.Persistence.Inputs.{PreInterestCreate}
use hhm_api_server_rs.Http.{HeaderMap}
use hhm_api_server_rs.Api.Request.{Json}
use hhm_api_server_rs.Api.Submissions.Accepted.{Admitted}
use hhm_api_server_rs.Persistence.Submit.{
  StoredSubmission, find_key, pre_interest_row, store_pre_interest,
}
use hhm_api_server_rs.Persistence.Submit.Laws.{submission_of}
use hhm_api_server_rs.Persistence.Submit.Recorded.{Recorded, created, replayed}
use hhm_api_server_rs.Persistence.Refinement.{store_pre_interest-Submits}
use hhm_api_server_rs.Persistence.Healthy.{store_pre_interest_healthy}
use hhm_api_server_rs.Persistence.Outbox.Healthy.{mark_mirrored_healthy}
use hhm_api_server_rs.Persistence.Outbox.{
  update_status, same_submission, is_settled_entry, mark_mirrored,
}
use hhm_api_server_rs.Api.State.{AppState, World}
use hhm_api_server_rs.Api.Submissions.{
  finish_submission, settle_submission, persist_both, connection, create_pre_interest,
}

module _ (state : AppState) (kind : StoredSubmissionKind) (context : SubmissionContext)
    (store : PersistenceTarget → SubmissionContext → Command StoredSubmission) where
  -- The dual write answers where its three commands do.
  persist_both_completes :
      (w : World) {stored mirrored : StoredSubmission} {s t u : Session}
      → store primary context w.primary ≡ (ok stored, s)
      → store supabase_mirror (with_canonical_id context stored.id) w.supabase ≡ (ok mirrored, t)
      → mirrored.id ≡ stored.id
      → mark_mirrored state.primary kind stored.id context.payload_sha256 s ≡ (ok tt, u)
      → (persist_both state kind context store w).0
        ≡ ok (record { submission_id = stored.id; kind = kind; accepted_at = stored.accepted_at })
  unfolding persist_both settle_submission finish_submission
  persist_both_completes w {stored} {mirrored} first second one_id marked =
      let named : (stored.id == stored.id) ≡ true = ground arith in
      rw (first, second, one_id, named, marked) refl

-- A replay changes nothing.
unchanged :
    {P : Type 0} {self : WriteContext} {target : PersistenceTarget} {kind : StoredSubmissionKind}
    {table : Table P} {context : SubmissionContext} {values : ℕ → Row P} {db : Db}
    {stored : StoredSubmission} {db' : Db} {row : Row P}
    → Recorded self target kind table context values db stored db'
    → find_key context.idempotency_key (table.rows db) ≡ some row
    → db' ≡ db
unchanged (created n m missing is after) found = cc (missing, found)
unchanged (replayed r there paid is after) found = after

-- A submission that the primary holds under the key and the digest of a context, once, with one
-- outbox entry, and that the mirror has missed, or holds under the same key, digest and identifier.
pub record Missed (context : SubmissionContext) (w : World) (row : Row PreInterestColumns)
    : Type 0 where
  pub found : find_key context.idempotency_key w.primary.db.pre_interests ≡ some row
  pub paid : row.payload_sha256 ≡ context.payload_sha256
  pub one_row :
      count_where (same_submission row.id (some context.payload_sha256)) w.primary.db.pre_interests
      ≡ 1
  pub one_entry :
      count_where (is_settled_entry pre_interest row.id context.payload_sha256) w.primary.db.outbox
      ≡ 1
  pub in_mirror :
      (find_key context.idempotency_key w.supabase.db.pre_interests ≡ none)
      ⊎ ((copy : Row PreInterestColumns) × (find_key context.idempotency_key
              w.supabase.db.pre_interests
            ≡ some copy)
          × (copy.payload_sha256 ≡ context.payload_sha256)
          × (copy.id ≡ row.id))

module _ (state : AppState) (context : SubmissionContext) (input : PreInterestCreate)
    (valid : state.contract.validate_pre_interest input ≡ ok tt) where
  abbrev store : PersistenceTarget → SubmissionContext → Command StoredSubmission
  store target ctx = store_pre_interest state.contract (connection state target) target ctx input

  module _ (up : (n : ℕ) → state.primary.outcome n ≡ fine)
      (reads : (n : ℕ) (column : String) → state.primary.decodes n column ≡ true) where
    -- The primary answers a retry by the row that it holds, and does not change.
    replays :
        (s : Session) (row : Row PreInterestColumns)
        → find_key context.idempotency_key s.db.pre_interests ≡ some row
        → row.payload_sha256 ≡ context.payload_sha256
        → ((store primary context s).0 ≡ ok (submission_of row true))
          × ((store primary context s).1.db ≡ s.db)
    replays s row found paid =
        let answer =
          store_pre_interest_healthy state.primary up reads state.contract primary context input s
            valid in
        let same : (row.payload_sha256 == context.payload_sha256) ≡ true =
          (text_eq_iff row.payload_sha256 context.payload_sha256).1 paid in
        let answered : (store primary context s).0 ≡ ok (submission_of row true) =
          answer ∙ rw (found, same) refl in
        (
          answered,
          unchanged
              ((store_pre_interest-Submits state.contract state.primary primary context
                  input).returned
                s (submission_of row true) answered)
              found,
        )

  module _ (up : (n : ℕ) → state.supabase.outcome n ≡ fine)
      (reads : (n : ℕ) (column : String) → state.supabase.decodes n column ≡ true) where
    -- The mirror answers with the identifier that the primary gave.
    mirrors :
        (s : Session) (id : Uuid)
        → (find_key context.idempotency_key s.db.pre_interests ≡ none)
          ⊎ ((copy : Row PreInterestColumns) × (find_key context.idempotency_key s.db.pre_interests
                ≡ some copy)
              × (copy.payload_sha256 ≡ context.payload_sha256)
              × (copy.id ≡ id))
        → (mirrored : StoredSubmission) × ((store supabase_mirror
              (with_canonical_id context id)
              s).0
            ≡ ok mirrored)
          × (mirrored.id ≡ id)
    mirrors s id held =
        let answer =
          store_pre_interest_healthy state.supabase up reads state.contract supabase_mirror
            (with_canonical_id context id) input s valid in
        let new =
          pre_interest_row state.contract state.supabase supabase_mirror
            (with_canonical_id context id) input (s.calls + 1) in
        elim held [
          | inl missing ↦ (submission_of new false, answer ∙ rw missing refl, refl)
          | inr (copy, there, paid, named) ↦
              let same : (copy.payload_sha256 == context.payload_sha256) ≡ true =
                (text_eq_iff copy.payload_sha256 context.payload_sha256).1 paid in
              (submission_of copy true, answer ∙ rw (there, same) refl, named)
        ]

one_changed :
    (id : Uuid) (payload : Text) (db : Db)
    → count_where (same_submission id (some payload)) db.pre_interests ≡ 1
    → (update_status pre_interest "mirrored" id (some payload) db).0 ≡ 1
unfolding update_status
one_changed id payload db h = h

module _ (state : AppState) (headers : HeaderMap) (fresh : Uuid) (json : Json PreInterestCreate)
    (input : PreInterestCreate) (valid : state.contract.validate_pre_interest input ≡ ok tt)
    (primary_up : (n : ℕ) → state.primary.outcome n ≡ fine)
    (primary_reads : (n : ℕ) (column : String) → state.primary.decodes n column ≡ true)
    (supabase_up : (n : ℕ) → state.supabase.outcome n ≡ fine)
    (supabase_reads : (n : ℕ) (column : String) → state.supabase.decodes n column ≡ true) where
  retry_persists :
      (context : SubmissionContext) (w : World) (row : Row PreInterestColumns)
      → Missed context w row
      → (persist_both state pre_interest context (store state context input valid) w).0
        ≡ ok (record { submission_id = row.id; kind = pre_interest; accepted_at = row.accepted_at })
  retry_persists context w row missed =
      let write = store state context input valid in
      let (answered, kept) =
        replays state context input valid primary_up primary_reads w.primary row missed.found
          missed.paid in
      let (mirrored, copied, one_id) =
        mirrors state context input valid supabase_up supabase_reads w.supabase row.id
          missed.in_mirror in
      let marked =
        mark_mirrored_healthy state.primary primary_up primary_reads pre_interest row.id
          context.payload_sha256 (write primary context w.primary).1
          (inr (rw kept (one_changed row.id context.payload_sha256 w.primary.db missed.one_row)))
          (rw kept missed.one_entry) in
      persist_both_completes state pre_interest context write w {mirrored = mirrored}
        (λ i. (answered i, (write primary context w.primary).1))
        (λ i. (copied i, (write supabase_mirror (with_canonical_id context row.id) w.supabase).1))
        one_id
        (λ i. (
          marked i,
          (mark_mirrored state.primary pre_interest row.id context.payload_sha256
              (write primary context w.primary).1).1,
        ))

  -- Where both databases answer again, repeating a pre-interest that the mirror has missed
  -- completes it: the receipt names the submission that the primary holds.
  pub create_pre_interest_retry :
      (context : SubmissionContext) (w : World) (row : Row PreInterestColumns)
      → Admitted state headers fresh json input input.turnstile_token context
      → Missed context w row
      → (create_pre_interest state headers fresh json input w).0
        ≡ ok (record { submission_id = row.id; kind = pre_interest; accepted_at = row.accepted_at })
  unfolding create_pre_interest
  create_pre_interest_retry context w row admitted missed =
      rw (valid, admitted.known, admitted.digested, admitted.built)
        (retry_persists context w row missed)
