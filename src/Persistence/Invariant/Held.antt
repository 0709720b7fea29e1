-- ===== src/Persistence/Invariant/Held.antt =====
-- What every step of src/persistence.rs keeps of a stored submission.
use hhm_api_server_rs.Common.{
  ℕ, ◌≡◌, refl, ◌∙◌, inl, inr, Bool, true, false, Option, none, some, List, [], ◌∷◌, Text, Text-Eq,
  String, arith, text_eq_iff, modify_where, ◌==◌, Bool-cases, if◌then◌else◌,
}
use hhm_api_server_rs.Persistence.Kinds.{
  PersistenceTarget, primary, supabase_mirror, StoredSubmissionKind,
}
use hhm_api_server_rs.Persistence.Kinds
use hhm_api_server_rs.Persistence.Context.{Uuid, SubmissionContext}
use hhm_api_server_rs.Persistence.Inputs.{Contract}
use hhm_api_server_rs.Persistence.Rows.{
  Row, OutboxRow, Db, Table, pre_interest_table, application_table, referral_table,
}
use hhm_api_server_rs.Persistence.Session.{WriteContext}
use hhm_api_server_rs.Persistence.Submit.{StoredSubmission, find_key, pre_interest_row}
use hhm_api_server_rs.Persistence.Submit.Recorded.{Recorded, created, replayed, entered}
use hhm_api_server_rs.Persistence.Uploads.Recorded.{Reserved}
use hhm_api_server_rs.Persistence.Outbox.{
  same_submission, set_status, update_status, is_settled_entry, mirrored_entry, is_open_entry,
  failed_entry,
}
use hhm_api_server_rs.Persistence.Outbox.Laws.{updated}
use hhm_api_server_rs.Persistence.Replay.{Holds, IsLens, pre_interest-IsLens}
use hhm_api_server_rs.Persistence.Invariant.Steps.{
  Effect, same, new_pre_interest, new_application, new_referral, new_upload, verified, settled,
  delayed,
}

-- What a step does to the rows of a table: nothing, a new row under a new key, or new statuses.
pub data RowsChange {P : Type 0} (rows rows' : List (Row P)) : Type 0 where
  kept : rows' ≡ rows → RowsChange rows rows'
  added :
      (row : Row P)
      → find_key row.idempotency_key rows ≡ none
      → rows' ≡ row ∷ rows
      → RowsChange rows rows'
  marked :
      (test : Row P → Bool) (status : String)
      → rows' ≡ modify_where test (set_status status) rows
      → RowsChange rows rows'

module _ {P : Type 0} (key : Text) (test : Row P → Bool) (status : String) where
  -- A status update changes the row that a key names in its status only.
  pub find_key-set_status :
      (rows : List (Row P)) {r : Row P}
      → find_key key rows ≡ some r
      → find_key key (modify_where test (set_status status) rows)
        ≡ some (if test r then set_status status r else r)
  find_key-set_status [] h = cc
  find_key-set_status (x ∷ xs) {r} h = elim (Bool-cases (x.idempotency_key == key)) [
    | inl here ↦ ground (arith, here)
    | inr further ↦ ground (arith, further, find_key-set_status xs {r = r})
  ]

pub either :
    {A : Type 0} (Q : A → Type 0) (test : Bool) {x y : A} → Q x → Q y → Q (if test then x else y)
either Q true a b = a
either Q false a b = b

module _ {P : Type 0} (context : SubmissionContext) where
  find_key-added :
      (row r : Row P) (rows : List (Row P))
      → find_key context.idempotency_key rows ≡ some r
      → find_key row.idempotency_key rows ≡ none
      → find_key context.idempotency_key (row ∷ rows) ≡ some r
  find_key-added row r rows found missing =
      elim (Bool-cases (row.idempotency_key == context.idempotency_key)) [
        | inl here ↦
            let one = (text_eq_iff row.idempotency_key context.idempotency_key).0 here in
            cc (one, found, missing)
        | inr other ↦ rw other found
      ]

  -- A held row stays held through every such change.
  pub Holds-changed :
      (table : Table P) (id : Uuid) (at : ℕ) {db db' : Db}
      → RowsChange (table.rows db) (table.rows db')
      → Holds table context id at db
      → Holds table context id at db'
  Holds-changed table id at (kept e) h = record {
    row = h.row;
    found = rw e h.found;
    paid = h.paid;
    named = h.named;
    timed = h.timed;
  }
  Holds-changed table id at (added row missing e) h = record {
    row = h.row;
    found = rw e (find_key-added row h.row _ h.found missing);
    paid = h.paid;
    named = h.named;
    timed = h.timed;
  }
  Holds-changed table id at {db} (marked test status e) h =
      let changed = set_status status h.row in
      let hit = test h.row in
      record {
        row = if hit then changed else h.row;
        found =
            rw e (find_key-set_status context.idempotency_key test status (table.rows db) h.found);
        paid = either (λ (r : Row P). r.payload_sha256 ≡ context.payload_sha256) hit h.paid h.paid;
        named = either (λ (r : Row P). r.id ≡ id) hit h.named h.named;
        timed = either (λ (r : Row P). r.accepted_at ≡ at) hit h.timed h.timed;
      }

-- The outbox entry of a new row leaves what does not read the outbox.
entered_aside :
    {X : Type 0} (f : Db → X)
    (boxed : (outbox : List OutboxRow) (db : Db) → f (record db { outbox = outbox }) ≡ f db)
    (self : WriteContext) (target : PersistenceTarget) (kind : StoredSubmissionKind) (n : ℕ)
    (id : Uuid) (payload : Text) (db : Db)
    → f (entered self target kind n id payload db) ≡ f db
entered_aside f boxed self primary kind n id payload db = boxed _ db
entered_aside f boxed self supabase_mirror kind n id payload db = refl

module _ {P : Type 0} (self : WriteContext) (target : PersistenceTarget)
    (kind : StoredSubmissionKind) (table : Table P) (context : SubmissionContext)
    (values : ℕ → Row P)
    (keyed : (n : ℕ) → (values n).idempotency_key ≡ context.idempotency_key) where
  recorded_here :
      IsLens table
      → {db db' : Db} {stored : StoredSubmission}
      → Recorded self target kind table context values db stored db'
      → RowsChange (table.rows db) (table.rows db')
  recorded_here lens {db} (created n m missing is after) =
      added (values n) (rw keyed missing) (rw after (lens.read_back self target kind m _ _ _ db))
  recorded_here lens (replayed r found paid is after) = kept (rw after refl)

  recorded_aside :
      {X : Type 0} (f : Db → X)
      → ((outbox : List OutboxRow) (db : Db) → f (record db { outbox = outbox }) ≡ f db)
      → ((rows : List (Row P)) (db : Db) → f (table.set_rows rows db) ≡ f db)
      → {db db' : Db} {stored : StoredSubmission}
      → Recorded self target kind table context values db stored db'
      → f db' ≡ f db
  recorded_aside f boxed aside {db} {stored = stored} (created n m missing is after) = rw after (
      entered_aside f boxed self target kind m stored.id context.payload_sha256 _
      ∙ aside (values n ∷ table.rows db) db)
  recorded_aside f boxed aside (replayed r found paid is after) = rw after refl

module _ (contract : Contract) (self : WriteContext) (target : PersistenceTarget) where
  updated_pre_interests :
      (kind : StoredSubmissionKind) (id : Uuid) (status : String) (payload : Option Text)
      (test : OutboxRow → Bool) (change : OutboxRow → OutboxRow) (db : Db)
      → RowsChange db.pre_interests (updated kind id status payload test change db).pre_interests
  unfolding update_status
  updated_pre_interests Kinds.pre_interest id status payload test change db =
      marked (same_submission id payload) status refl
  updated_pre_interests Kinds.upload id status payload test change db = kept refl
  updated_pre_interests Kinds.application id status payload test change db = kept refl
  updated_pre_interests Kinds.referral id status payload test change db = kept refl

  -- Every effect of a command, on the pre-interests.
  pub Effect-pre_interests :
      {db db' : Db}
      → Effect contract self target db db'
      → RowsChange db.pre_interests db'.pre_interests
  Effect-pre_interests (same e) = kept (rw e refl)
  Effect-pre_interests (new_pre_interest context input a r) =
      recorded_here self target Kinds.pre_interest pre_interest_table context
        (pre_interest_row contract self target context input) (λ n. refl) pre_interest-IsLens r
  Effect-pre_interests (new_application context input occupancy a r) = kept (
      recorded_aside self target Kinds.application application_table context _ (λ n. refl)
        (λ db. db.pre_interests) (λ outbox db. refl) (λ rows db. refl) r)
  Effect-pre_interests (new_referral context input subject a r) = kept (
      recorded_aside self target Kinds.referral referral_table context _ (λ n. refl)
        (λ db. db.pre_interests) (λ outbox db. refl) (λ rows db. refl) r)
  Effect-pre_interests
        (new_upload context input now prefix size a (Reserved.created m missing is after)) =
      kept (
        rw after (
          entered_aside (λ db. db.pre_interests) (λ outbox db. refl) self target Kinds.upload m a.id
            context.payload_sha256 _))
  Effect-pre_interests
        (new_upload context input now prefix size a (Reserved.replayed r found paid is after)) =
      kept (rw after refl)
  Effect-pre_interests (verified test now e) = kept (rw e refl)
  Effect-pre_interests {db} (settled kind id payload e) = rw e (
      updated_pre_interests kind id "mirrored" (some payload) (is_settled_entry kind id payload)
        mirrored_entry db)
  Effect-pre_interests {db} (delayed kind id n code e) = rw e (
      updated_pre_interests kind id "retryable_failure" none (is_open_entry kind id)
        (failed_entry (self.timestamp n) code) db)
