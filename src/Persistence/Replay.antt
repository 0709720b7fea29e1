-- ===== src/Persistence/Replay.antt =====
-- Repeating a submission: what a second command under the same key finds, returns and leaves.
use hhm_api_server_rs.Common.{
  ℕ, ◌≡◌, refl, sym, ap, ◌∙◌, true, some, List, ◌∷◌, Text, Text-Eq, arith, text_eq_iff,
}
use hhm_api_server_rs.Common.Result.{ok}
use hhm_api_server_rs.Persistence.Kinds.{
  PersistenceTarget, primary, supabase_mirror, StoredSubmissionKind, pre_interest,
}
use hhm_api_server_rs.Persistence.Context.{Uuid, SubmissionContext}
use hhm_api_server_rs.Persistence.Inputs.{Contract, PreInterestCreate}
use hhm_api_server_rs.Persistence.Rows.{
  Row, OutboxRow, Db, Table, pre_interest_table, application_table, referral_table,
}
use hhm_api_server_rs.Persistence.Session.{WriteContext, Session}
use hhm_api_server_rs.Persistence.Submit.{
  StoredSubmission, find_key, pre_interest_row, store_pre_interest,
}
use hhm_api_server_rs.Persistence.Submit.Recorded.{
  Recorded, created, replayed, entered, Submits-eq-ok,
}
use hhm_api_server_rs.Persistence.Refinement.{store_pre_interest-Submits}

-- The table can be read back after a write, also beside a new outbox entry.
pub record IsLens {P : Type 0} (table : Table P) : Type 0 where
  pub read_back :
      (self : WriteContext) (target : PersistenceTarget) (kind : StoredSubmissionKind) (n : ℕ)
      (id : Uuid) (payload : Text) (rows : List (Row P)) (db : Db)
      → table.rows (entered self target kind n id payload (table.set_rows rows db)) ≡ rows

-- A table that the outbox does not overlap.
IsLens-by :
    {P : Type 0} (table : Table P)
    → ((rows : List (Row P)) (db : Db) → table.rows (table.set_rows rows db) ≡ rows)
    → ((outbox : List OutboxRow) (db : Db)
        → table.rows (record db { outbox = outbox }) ≡ table.rows db)
    → IsLens table
IsLens-by {P} table same apart = record {
  read_back = λ self target kind n id payload rows db. pick self target kind n id payload rows db;
}
  where
    pick :
        (self : WriteContext) (target : PersistenceTarget) (kind : StoredSubmissionKind) (n : ℕ)
        (id : Uuid) (payload : Text) (rows : List (Row P)) (db : Db)
        → table.rows (entered self target kind n id payload (table.set_rows rows db)) ≡ rows
    pick self primary kind n id payload rows db = apart _ (table.set_rows rows db) ∙ same rows db
    pick self supabase_mirror kind n id payload rows db = same rows db

pub pre_interest-IsLens : IsLens pre_interest_table
pre_interest-IsLens = IsLens-by pre_interest_table (λ rows db. refl) (λ outbox db. refl)

pub application-IsLens : IsLens application_table
application-IsLens = IsLens-by application_table (λ rows db. refl) (λ outbox db. refl)

pub referral-IsLens : IsLens referral_table
referral-IsLens = IsLens-by referral_table (λ rows db. refl) (λ outbox db. refl)

-- The row that a key names.
pub record Holds {P : Type 0} (table : Table P) (context : SubmissionContext) (id : Uuid)
    (accepted_at : ℕ) (db : Db) : Type 0 where
  pub row : Row P
  pub found : find_key context.idempotency_key (table.rows db) ≡ some row
  pub paid : row.payload_sha256 ≡ context.payload_sha256
  pub named : row.id ≡ id
  pub timed : row.accepted_at ≡ accepted_at

module _ {P : Type 0} where
  pub find_key-cons :
      (key : Text) (row : Row P) (rows : List (Row P))
      → row.idempotency_key ≡ key
      → find_key key (row ∷ rows) ≡ some row
  find_key-cons key row rows e = ground (arith, text_eq_iff row.idempotency_key key)

module _ {P : Type 0} (self : WriteContext) (target : PersistenceTarget)
    (kind : StoredSubmissionKind) (table : Table P) (lens : IsLens table)
    (context : SubmissionContext) (values : ℕ → Row P)
    (keyed : (n : ℕ) → (values n).idempotency_key ≡ context.idempotency_key)
    (paid : (n : ℕ) → (values n).payload_sha256 ≡ context.payload_sha256) where
  -- After an accepted submission the key names its row.
  pub Recorded-Holds :
      {db db' : Db} {stored : StoredSubmission}
      → Recorded self target kind table context values db stored db'
      → Holds table context stored.id stored.accepted_at db'
  Recorded-Holds {db} {db'} {stored} (created n m missing is after) = record {
    row = values n;
    found =
        rw after (rw lens.read_back (find_key-cons context.idempotency_key (values n) _ (keyed n)));
    paid = paid n;
    named = ap (λ x. x.id) (sym is);
    timed = ap (λ x. x.accepted_at) (sym is);
  }
  Recorded-Holds (replayed r found same is after) = record {
    row = r;
    found = rw after found;
    paid = same;
    named = ap (λ x. x.id) (sym is);
    timed = ap (λ x. x.accepted_at) (sym is);
  }

  -- A submission under a key that names a row is a replay of that row.
  pub Recorded-again :
      {db db' : Db} {stored : StoredSubmission} (before : SubmissionContext) (id : Uuid) (at : ℕ)
      → before.idempotency_key ≡ context.idempotency_key
      → Holds table before id at db
      → Recorded self target kind table context values db stored db'
      → (stored ≡ record { id = id; accepted_at = at; replayed = true })
        × (db' ≡ db)
        × (before.payload_sha256 ≡ context.payload_sha256)
  Recorded-again before id at same h (created n m missing is after) = cc (h.found, missing, same)
  Recorded-again before id at same h (replayed r found paid' is after) =
      let one : some h.row ≡ some r = cc (h.found, found, same) in ground (arith, one)

module _ (contract : Contract) (self : WriteContext) (target : PersistenceTarget)
    (first second : SubmissionContext) (input input' : PreInterestCreate) where
  -- Two pre-interests under one idempotency key, on a database that nobody changed in between:
  -- if both are accepted, the second returns the identifier and the time of the first, marked as
  -- a replay, it changes nothing, and both carried the same payload digest.
  pub store_pre_interest_twice :
      (s t : Session) {a b : StoredSubmission} {s' t' : Session}
      → first.idempotency_key ≡ second.idempotency_key
      → store_pre_interest contract self target first input s ≡ (ok a, s')
      → t.db ≡ s'.db
      → store_pre_interest contract self target second input' t ≡ (ok b, t')
      → (b ≡ record { id = a.id; accepted_at = a.accepted_at; replayed = true })
        × (t'.db ≡ s'.db)
        × (first.payload_sha256 ≡ second.payload_sha256)
  store_pre_interest_twice s t {a} key e unchanged f =
      let values = pre_interest_row contract self target first input in
      let values' = pre_interest_row contract self target second input' in
      let r =
        Submits-eq-ok self target pre_interest pre_interest_table first values
          (store_pre_interest-Submits contract self target first input) e in
      let q =
        Submits-eq-ok self target pre_interest pre_interest_table second values'
          (store_pre_interest-Submits contract self target second input') f in
      let held =
        Recorded-Holds self target pre_interest pre_interest_table pre_interest-IsLens first values
          (λ n. refl) (λ n. refl) r in
      let (same, db, paid) =
        Recorded-again self target pre_interest pre_interest_table pre_interest-IsLens second
          values' (λ n. refl) (λ n. refl) first a.id a.accepted_at key (rw unchanged held) q in
      (same, db ∙ unchanged, paid)
