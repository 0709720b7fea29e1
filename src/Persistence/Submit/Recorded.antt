-- ===== src/Persistence/Submit/Recorded.antt =====
-- The contract of a stored submission, as a relation between the database before and after, and
-- the body that the three `store_` commands for submissions of src/persistence.rs share.
use hhm_api_server_rs.Common.{
  ℕ, ◌≡◌, refl, sym, ap, ◌∙◌, ◌⊎◌, inl, inr, true, false, none, some, ◌∷◌, Text, arith,
  Option-cases,
}
use hhm_api_server_rs.Common.Result.{Result, ok, err, panic, pure, ◌>>=◌, ◌>>◌, >>=-eq-ok, lift}
use hhm_api_server_rs.Persistence.Error.{DataError}
use hhm_api_server_rs.Persistence.Kinds.{
  PersistenceTarget, primary, supabase_mirror, StoredSubmissionKind,
}
use hhm_api_server_rs.Persistence.Context.{Uuid, SubmissionContext}
use hhm_api_server_rs.Persistence.Rows.{Row, Db, Table}
use hhm_api_server_rs.Persistence.Session.{
  WriteContext, Session, Command, DatabaseTransaction, statement, tick, in_transaction,
}
use hhm_api_server_rs.Persistence.Session.Laws.{begun, in_transaction-eq-ok, in_transaction_db}
use hhm_api_server_rs.Persistence.Submit.{
  StoredSubmission, find_key, insert_or_replay, maybe_insert_outbox, outbox_row,
}
use hhm_api_server_rs.Persistence.Submit.Laws.{submission_of, insert_fresh, insert_again}

-- The outbox entry that the primary gets with a new row; the mirror gets none.
abbrev pub entered :
    WriteContext → PersistenceTarget → StoredSubmissionKind → ℕ → Uuid → Text → Db → Db
entered self primary kind n id payload db = record db {
  outbox = outbox_row self primary kind n id payload ∷ db.outbox;
}
entered self supabase_mirror kind n id payload db = db

-- A submission that was accepted: a new row under a new key, with its outbox entry, or the row
-- that holds the key already, which must hold the same payload, and no change.
pub data Recorded {P : Type 0} (self : WriteContext) (target : PersistenceTarget)
    (kind : StoredSubmissionKind) (table : Table P) (context : SubmissionContext)
    (values : ℕ → Row P) (db : Db) (stored : StoredSubmission) (db' : Db) : Type 0 where
  created :
      (n m : ℕ)
      → find_key context.idempotency_key (table.rows db) ≡ none
      → stored ≡ submission_of (values n) false
      → db'
        ≡ entered self target kind m stored.id context.payload_sha256
            (table.set_rows (values n ∷ table.rows db) db)
      → Recorded self target kind table context values db stored db'
  replayed :
      (r : Row P)
      → find_key context.idempotency_key (table.rows db) ≡ some r
      → r.payload_sha256 ≡ context.payload_sha256
      → stored ≡ submission_of r true
      → db' ≡ db
      → Recorded self target kind table context values db stored db'

module _ (self : WriteContext) (kind : StoredSubmissionKind) (context : SubmissionContext) where
  pub outbox_of_new :
      (target : PersistenceTarget) (stored : StoredSubmission) (s : Session) {s' : Session}
      → stored.replayed ≡ false
      → maybe_insert_outbox self target kind stored context s ≡ (ok tt, s')
      → s'.db ≡ entered self target kind s.calls stored.id context.payload_sha256 s.db
  unfolding maybe_insert_outbox statement
  outbox_of_new primary stored s new h = ground arith
  outbox_of_new supabase_mirror stored s new h = ground arith

  pub outbox_of_replay :
      (target : PersistenceTarget) (stored : StoredSubmission) (s : Session) {s' : Session}
      → stored.replayed ≡ true
      → maybe_insert_outbox self target kind stored context s ≡ (ok tt, s')
      → s'.db ≡ s.db
  unfolding maybe_insert_outbox
  outbox_of_replay primary stored s old h = ground arith
  outbox_of_replay supabase_mirror stored s old h = ground arith

module _ {P : Type 0} (self : WriteContext) (target : PersistenceTarget)
    (kind : StoredSubmissionKind) (table : Table P) (context : SubmissionContext)
    (values : ℕ → Row P) where
  -- The body that the three commands run in their transaction.
  abbrev pub submit_body : Command StoredSubmission
  submit_body = do
    stored ← insert_or_replay self table context values
    maybe_insert_outbox self target kind stored context
    pure stored

  module _ (keyed : (n : ℕ) → (values n).idempotency_key ≡ context.idempotency_key)
      (same : (db : Db) → table.set_rows (table.rows db) db ≡ db) (s : Session)
      {stored : StoredSubmission} {s' : Session} where
    -- What a successful body does, by the row that it finds.
    body_fresh :
        (found : StoredSubmission) (t : Session)
        → find_key context.idempotency_key (table.rows s.db) ≡ none
        → insert_or_replay self table context values s ≡ (ok found, t)
        → maybe_insert_outbox self target kind found context t ≡ (ok tt, s')
        → found ≡ stored
        → Recorded self target kind table context values s.db stored s'.db
    body_fresh found t missing inserted entry e =
        let (is, db) = insert_fresh self table context values keyed same s missing inserted in
        let after =
          outbox_of_new self kind context target found t (ap (λ x. x.replayed) is) entry in
        created s.calls t.calls missing (sym e ∙ is) (rw (← e, ← db) after)

    body_again :
        (found : StoredSubmission) (t : Session) (r : Row P)
        → find_key context.idempotency_key (table.rows s.db) ≡ some r
        → insert_or_replay self table context values s ≡ (ok found, t)
        → maybe_insert_outbox self target kind found context t ≡ (ok tt, s')
        → found ≡ stored
        → Recorded self target kind table context values s.db stored s'.db
    body_again found t r there inserted entry e =
        let (paid, is, db) = insert_again self table context values keyed same s there inserted in
        let after =
          outbox_of_replay self kind context target found t (ap (λ x. x.replayed) is) entry in
        replayed r there paid (sym e ∙ is) (after ∙ db)

    pub submit_body-Recorded :
        submit_body s ≡ (ok stored, s')
        → Recorded self target kind table context values s.db stored s'.db
    submit_body-Recorded h =
        let (found, t, inserted, rest) =
          >>=-eq-ok (insert_or_replay self table context values) _ s h in
        let (_, u, entry, last) =
          >>=-eq-ok (maybe_insert_outbox self target kind found context) _ t rest in
        let same_value : found ≡ stored = ground (arith, last) in
        let entry' : maybe_insert_outbox self target kind found context t ≡ (ok tt, s') =
          cc (entry, last) in
        elim (Option-cases (find_key context.idempotency_key (table.rows s.db))) [
          | inl missing ↦ body_fresh found t missing inserted entry' same_value
          | inr (r, there) ↦ body_again found t r there inserted entry' same_value
        ]

  -- A command that keeps the contract: whatever calls fail, it changes nothing or has the effect
  -- of an accepted submission, and what it returns is the submission that it recorded.
  pub record Submits (command : Command StoredSubmission) : Type 0 where
    pub atomic :
        (s : Session)
        → ((command s).1.db ≡ s.db)
          ⊎ ((a : StoredSubmission) × Recorded self target kind table context values s.db a
                (command s).1.db)
    pub returned :
        (s : Session) (stored : StoredSubmission)
        → (command s).0 ≡ ok stored
        → Recorded self target kind table context values s.db stored (command s).1.db

module _ {P : Type 0} (self : WriteContext) (target : PersistenceTarget)
    (kind : StoredSubmissionKind) (table : Table P) (context : SubmissionContext)
    (values : ℕ → Row P) (body : DatabaseTransaction → Command StoredSubmission)
    (recorded : (tx : DatabaseTransaction) (s : Session) (stored : StoredSubmission) (s' : Session)
      → body tx s ≡ (ok stored, s')
      → Recorded self target kind table context values s.db stored s'.db) where
  pub in_transaction-Submits :
      Submits self target kind table context values (in_transaction self body)
  in_transaction-Submits = record {
    atomic = λ s.
        in_transaction_db self body s
          (λ db.
            (db ≡ s.db)
            ⊎ ((a : StoredSubmission) × Recorded self target kind table context values s.db a db))
          (inl refl)
          (λ a e.
            inr (a, recorded (begun s) (tick s) a _ (λ i. (e i, (body (begun s) (tick s)).1))));
    returned = λ s stored e.
        let (ended, db) =
          in_transaction-eq-ok self body s (λ i. (e i, (in_transaction self body s).1)) in
        rw db (recorded (begun s) (tick s) stored _ (λ i. (ended i, (body (begun s) (tick s)).1)));
  }

module _ {P : Type 0} (self : WriteContext) (target : PersistenceTarget)
    (kind : StoredSubmissionKind) (table : Table P) (context : SubmissionContext)
    (values : ℕ → Row P) where
  -- A check in front of the command changes nothing.
  pub checked-Submits :
      {A : Type 0} (check : Result DataError A) (rest : A → Command StoredSubmission)
      → ((a : A) → check ≡ ok a → Submits self target kind table context values (rest a))
      → Submits self target kind table context values (lift check >>= rest)
  checked-Submits (ok a) rest keeps = keeps a refl
  checked-Submits (err e) rest keeps = record {
    atomic = λ s. inl refl;
    returned = λ s stored p. cc;
  }
  checked-Submits panic rest keeps = record { atomic = λ s. inl refl; returned = λ s stored p. cc }

  -- The contract at a run that returned a submission.
  pub Submits-eq-ok :
      {command : Command StoredSubmission} {s : Session} {stored : StoredSubmission} {s' : Session}
      → Submits self target kind table context values command
      → command s ≡ (ok stored, s')
      → Recorded self target kind table context values s.db stored s'.db
  Submits-eq-ok {command} {s} {stored} {s'} keeps e =
      rw (← ap (λ x. x.1.db) e) (keeps.returned s stored (ap (λ x. x.0) e))
