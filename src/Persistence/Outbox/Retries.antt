-- ===== src/Persistence/Outbox/Retries.antt =====
-- How many failures of the mirror are recorded for a submission.
use hhm_api_server_rs.Common.{
  ℕ, suc, ◌+◌, ◌*◌, ◌≤◌, ◌<◌, ◌≡◌, refl, ap, inl, inr, Bool, List, [], ◌∷◌, Text, Text-Eq, arith,
  All, count_where, modify_where, Bool-cases, if◌then◌else◌, ltb,
}
use hhm_api_server_rs.Common.Result.{ok}
use hhm_api_server_rs.Persistence.Kinds.{
  PersistenceTarget, primary, supabase_mirror, StoredSubmissionKind,
}
use hhm_api_server_rs.Persistence.Kinds
use hhm_api_server_rs.Persistence.Context.{Uuid, SubmissionContext}
use hhm_api_server_rs.Persistence.Inputs.{Contract}
use hhm_api_server_rs.Persistence.Rows.{
  Row, OutboxRow, Db, Table, pre_interest_table, application_table, referral_table,
}
use hhm_api_server_rs.Persistence.Session.{WriteContext, Session}
use hhm_api_server_rs.Persistence.Submit.{StoredSubmission}
use hhm_api_server_rs.Persistence.Submit.Recorded.{Recorded, entered}
use hhm_api_server_rs.Persistence.Uploads.Recorded.{Reserved}
use hhm_api_server_rs.Persistence.Outbox.{
  is_entry, is_open_entry, is_settled_entry, failed_entry, mirrored_entry, record_mirror_failure,
}
use hhm_api_server_rs.Persistence.Outbox.Laws.{record_mirror_failure-eq-ok}
use hhm_api_server_rs.Persistence.Outbox.Schedule.{IsSound}
use hhm_api_server_rs.Persistence.Invariant.Steps.{
  Step, failure, Reach, here, next, Effect, same, new_pre_interest, new_application, new_referral,
  new_upload, verified, settled, delayed, Step-Effect,
}
use hhm_api_server_rs.Persistence.Invariant.Histories.{Reach-IsSound}

module _ (kind : StoredSubmissionKind) (id : Uuid) where
  -- The attempts that a submission's entries count.
  abbrev pub attempts_made : List OutboxRow → ℕ
  attempts_made [] = 0
  attempts_made (e ∷ es) = (if is_entry kind id e then e.attempts else 0) + attempts_made es

  -- Recording a failure adds one attempt to every entry that it changes.
  attempts_made_failed :
      (now : ℕ) (code : Text) (es : List OutboxRow)
      → attempts_made (modify_where (is_open_entry kind id) (failed_entry now code) es)
        ≡ count_where (is_open_entry kind id) es + attempts_made es
  attempts_made_failed now code [] = refl
  attempts_made_failed now code (e ∷ es) =
      let rest = attempts_made_failed now code es in
      elim (Bool-cases (is_entry kind id e)) [
        | inr other ↦ rw (other, other) (omega (arith, rest))
        | inl named ↦ elim (Bool-cases (ltb e.attempts 100)) [
          | inr spent ↦ rw (named, spent, named) (omega (arith, rest))
          | inl open' ↦ rw (named, open', named) (omega (arith, rest))
        ]
      ]

  -- Sound entries count 100 attempts each at most.
  attempts_made_bound :
      (es : List OutboxRow)
      → All IsSound es
      → attempts_made es ≤ 100 * count_where (is_entry kind id) es
  attempts_made_bound [] h = omega arith
  attempts_made_bound (e ∷ es) ((few, _), hs) =
      let rest = attempts_made_bound es hs in
      elim (Bool-cases (is_entry kind id e)) [
        | inl named ↦ rw named (omega (arith, few, rest))
        | inr other ↦ rw other (omega (arith, rest))
      ]

  module _ (test : OutboxRow → Bool) (change : OutboxRow → OutboxRow)
      (named : (e : OutboxRow) → is_entry kind id (change e) ≡ is_entry kind id e)
      (later : (e : OutboxRow) → e.attempts ≤ (change e).attempts) where
    entry_attempts :
        (e : OutboxRow)
        → (if is_entry kind id e then e.attempts else 0)
          ≤ (if is_entry kind id (change e) then (change e).attempts else 0)
    entry_attempts e = rw named (ground (arith, later e))

    -- An update that takes back no attempt leaves no fewer.
    attempts_made_changed :
        (es : List OutboxRow) → attempts_made es ≤ attempts_made (modify_where test change es)
    attempts_made_changed [] = omega arith
    attempts_made_changed (e ∷ es) = elim (Bool-cases (test e)) [
      | inl hit ↦ rw hit (omega (arith, entry_attempts e, attempts_made_changed es))
      | inr other ↦ rw other (omega (arith, attempts_made_changed es))
    ]

module _ (contract : Contract) (self : WriteContext) (target : PersistenceTarget)
    (kind : StoredSubmissionKind) (id : Uuid) where
  entered_attempts :
      (t : PersistenceTarget) (k : StoredSubmissionKind) (n : ℕ) (i : Uuid) (payload : Text)
      (db : Db)
      → attempts_made kind id db.outbox
        ≤ attempts_made kind id (entered self t k n i payload db).outbox
  entered_attempts primary k n i payload db = omega arith
  entered_attempts supabase_mirror k n i payload db = omega arith

  recorded_attempts :
      {P : Type 0} (k : StoredSubmissionKind) (table : Table P) (context : SubmissionContext)
      (values : ℕ → Row P) (db : Db) {db' : Db} {stored : StoredSubmission}
      → ((rows : List (Row P)) → (table.set_rows rows db).outbox ≡ db.outbox)
      → Recorded self target k table context values db stored db'
      → attempts_made kind id db.outbox ≤ attempts_made kind id db'.outbox
  recorded_attempts k table context values db {db'} {stored} aside
        (Recorded.created n m missing is after) =
      let rows = table.set_rows (values n ∷ table.rows db) db in
      let kept : attempts_made kind id rows.outbox ≡ attempts_made kind id db.outbox =
        ap (attempts_made kind id) (aside (values n ∷ table.rows db)) in
      rw after
        (omega (arith, kept, entered_attempts target k m stored.id context.payload_sha256 rows))
  recorded_attempts k table context values db aside (Recorded.replayed r found paid is after) =
      rw after (omega arith)

  -- No command takes back an attempt.
  Effect-attempts :
      {db db' : Db}
      → Effect contract self target db db'
      → attempts_made kind id db.outbox ≤ attempts_made kind id db'.outbox
  Effect-attempts (same e) = rw e (omega arith)
  Effect-attempts {db} (new_pre_interest context input a r) =
      recorded_attempts Kinds.pre_interest pre_interest_table context _ db (λ rows. refl) r
  Effect-attempts {db} (new_application context input occupancy a r) =
      recorded_attempts Kinds.application application_table context _ db (λ rows. refl) r
  Effect-attempts {db} (new_referral context input subject a r) =
      recorded_attempts Kinds.referral referral_table context _ db (λ rows. refl) r
  Effect-attempts
        (new_upload context input now prefix size a (Reserved.created m missing is after)) =
      rw after (entered_attempts target Kinds.upload m a.id context.payload_sha256 _)
  Effect-attempts
        (new_upload context input now prefix size a (Reserved.replayed r found paid is after)) =
      rw after (omega arith)
  Effect-attempts (verified test now e) = rw e (omega arith)
  Effect-attempts {db} (settled k i payload e) = rw e (
      attempts_made_changed kind id (is_settled_entry k i payload) mirrored_entry (λ e. refl)
        (λ e. omega arith) db.outbox)
  Effect-attempts {db} (delayed k i n code e) = rw e (
      attempts_made_changed kind id (is_open_entry k i) (failed_entry (self.timestamp n) code)
        (λ e. refl) (λ e. omega arith) db.outbox)

  -- A history of commands of all kinds from the session `s`, with the number of failures that were
  -- recorded for the submission with success; any other command, and any attempt to record a
  -- failure, may stand in between.
  pub data Failures (s : Session) : ℕ → Session → Type 0 where
    start : Failures s 0 s
    recorded :
        {n : ℕ} {t : Session} (code : Text)
        → Failures s n t
        → (record_mirror_failure self kind id code t).0 ≡ ok tt
        → Failures s (suc n) (record_mirror_failure self kind id code t).1
    command :
        {n : ℕ} {t u : Session} → Failures s n t → Step contract self target t u → Failures s n u

  Failures-Reach :
      {s : Session} {n : ℕ} {u : Session} → Failures s n u → Reach contract self target s u
  Failures-Reach start = here
  Failures-Reach (recorded {t = t} code before h) =
      next (Failures-Reach before) (failure kind id code t)
  Failures-Reach (command before step) = next (Failures-Reach before) step

  recorded_attempt :
      (code : Text) (t : Session)
      → (record_mirror_failure self kind id code t).0 ≡ ok tt
      → attempts_made kind id (record_mirror_failure self kind id code t).1.db.outbox
        ≡ suc (attempts_made kind id t.db.outbox)
  recorded_attempt code t h =
      let run = record_mirror_failure self kind id code t in
      let (after, _, one, _) =
        record_mirror_failure-eq-ok self kind id code t {s' = run.1} (λ i. (h i, run.1)) in
      let made = attempts_made_failed kind id (self.timestamp t.calls) code t.db.outbox in
      rw after (omega (arith, made, one))

  -- Every recorded failure is counted in an entry of the submission.
  Failures-counted :
      {s : Session} {n : ℕ} {u : Session}
      → Failures s n u
      → n + attempts_made kind id s.db.outbox ≤ attempts_made kind id u.db.outbox
  Failures-counted start = omega arith
  Failures-counted (recorded {t = t} code before h) =
      omega (arith, recorded_attempt code t h, Failures-counted before)
  Failures-counted (command before step) =
      omega
        (arith, Failures-counted before, Effect-attempts (Step-Effect contract self target step))

  -- In every history of commands of all kinds, whatever calls fail, the failures that are recorded
  -- for a submission with success, with the attempts that its entries counted before, are not more
  -- than 100 for each entry that it has in the end; if the entries were sound before, and the schema
  -- starts an entry with fewer than 100 attempts.
  pub Failures-bounded :
      self.attempts_default < 100
      → {s : Session} {n : ℕ} {u : Session} → All IsSound s.db.outbox
      → Failures s n u
      → n + attempts_made kind id s.db.outbox ≤ 100 * count_where (is_entry kind id) u.db.outbox
  Failures-bounded young {s = s} {u = u} sound h =
      let after = Reach-IsSound contract self target young s u (Failures-Reach h) sound in
      omega (arith, Failures-counted h, attempts_made_bound kind id u.db.outbox after)
