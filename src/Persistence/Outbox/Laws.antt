-- ===== src/Persistence/Outbox/Laws.antt =====
-- The effect of `mark_mirrored` and `record_mirror_failure` on the database, whatever calls fail.
use mathlib.Core.Path.{subst}
use hhm_api_server_rs.Common.{
  ℕ, ◌≡◌, refl, sym, ap, ◌∙◌, ◌⊎◌, inl, inr, Bool, true, Option, none, some, String, Text, arith,
  count_where, modify_where, Bool-cases,
}
use hhm_api_server_rs.Common.Several.{Several, Several-modify}
use hhm_api_server_rs.Persistence.Outbox.Marks.{
  IsMarked, IsDelayed, mirrored-IsMarked, failed-IsDelayed,
}
use hhm_api_server_rs.Common.Result.{ok, ◌>>◌, >>=-eq-ok}
use hhm_api_server_rs.Persistence.Kinds.{StoredSubmissionKind}
use hhm_api_server_rs.Persistence.Context.{Uuid}
use hhm_api_server_rs.Persistence.Rows.{OutboxRow, Db}
use hhm_api_server_rs.Persistence.Session.{WriteContext, Session, Command, statement, tick}
use hhm_api_server_rs.Persistence.Session.Laws.{in_transaction-eq-ok, in_transaction_db}
use hhm_api_server_rs.Persistence.Outbox.{
  is_upload, update_status, is_settled_entry, mirrored_entry, is_open_entry, failed_entry,
  valid_error_code, update_submission, update_entry, mark_mirrored, record_mirror_failure,
}

-- One row of the submission's table was changed; uploads have no status there.
abbrev pub OneChanged : StoredSubmissionKind → ℕ → Type 0
OneChanged kind n = (is_upload kind ≡ true) ⊎ (n ≡ 1)

-- The database after both updates.
abbrev pub updated :
    StoredSubmissionKind
    → Uuid
    → String
    → Option Text
    → (OutboxRow → Bool)
    → (OutboxRow → OutboxRow)
    → Db
    → Db
updated kind id status payload test change db = record (update_status kind status id payload db).1 {
  outbox = modify_where test change db.outbox;
}

module _ (kind : StoredSubmissionKind) (id : Uuid) (status : String) (payload : Option Text) where
  pub outbox-update_status :
      (db : Db) → (update_status kind status id payload db).1.outbox ≡ db.outbox
  unfolding update_status
  outbox-update_status db = ground arith

  upload-update_status :
      (db : Db) → is_upload kind ≡ true → (update_status kind status id payload db).1 ≡ db
  unfolding update_status
  upload-update_status db h = ground arith

  module _ (self : WriteContext) where
    update_submission-eq-ok :
        (s : Session) {s' : Session}
        → update_submission self kind id status payload s ≡ (ok tt, s')
        → (s'.db ≡ (update_status kind status id payload s.db).1)
          × OneChanged kind (update_status kind status id payload s.db).0
    unfolding update_submission statement
    update_submission-eq-ok s {s'} h = elim (Bool-cases (is_upload kind)) [
      | inl up ↦ (sym (ap (λ x. x.1.db) (rw up at h)) ∙ sym (upload-update_status s.db up), inl up)
      | inr other ↦ ground (arith, other)
    ]

    update_entry-eq-ok :
        (test : OutboxRow → Bool) (change : OutboxRow → OutboxRow) (s : Session) {s' : Session}
        → update_entry self kind id test change s ≡ (ok tt, s')
        → (s'.db ≡ record s.db { outbox = modify_where test change s.db.outbox })
          × (count_where test s.db.outbox ≡ 1)
    unfolding update_entry statement
    update_entry-eq-ok test change s h = ground arith

    module _ (test : OutboxRow → Bool) (change : OutboxRow → OutboxRow) where
      abbrev both : Command (Unit {0})
      both = do update_submission self kind id status payload; update_entry self kind id test change

      pub both-eq-ok :
          (s : Session) {s' : Session}
          → both s ≡ (ok tt, s')
          → (s'.db ≡ updated kind id status payload test change s.db)
            × OneChanged kind (update_status kind status id payload s.db).0
            × (count_where test s.db.outbox ≡ 1)
      both-eq-ok s h =
          let (_, t, first, rest) =
            >>=-eq-ok (update_submission self kind id status payload) _ s h in
          let (db, one) = update_submission-eq-ok s first in
          let (db', entry) = update_entry-eq-ok test change t rest in
          let box : t.db.outbox ≡ s.db.outbox = ap (λ d. d.outbox) db ∙ outbox-update_status s.db in
          (
            db' ∙ (λ i. record (db i) { outbox = modify_where test change (box i) }),
            one,
            rw box at entry,
          )

      both_ended :
          (s : Session) {a : Unit {0}}
          → (both s).0 ≡ ok a
          → ((both s).1.db ≡ updated kind id status payload test change s.db)
            × OneChanged kind (update_status kind status id payload s.db).0
            × (count_where test s.db.outbox ≡ 1)
      both_ended s e = both-eq-ok s {s' = (both s).1} (λ i. (e i, (both s).1))

module _ (self : WriteContext) (kind : StoredSubmissionKind) (id : Uuid) where
  -- The database after an acknowledgement: the submission's row and its outbox entry are marked.
  abbrev pub acknowledged : Text → Db → Db
  acknowledged payload db =
      updated kind id "mirrored" (some payload) (is_settled_entry kind id payload) mirrored_entry db

  -- The database after a failure was recorded in the transaction that began at the call `n`.
  abbrev pub failed : ℕ → Text → Db → Db
  failed n code db =
      updated kind id "retryable_failure" none (is_open_entry kind id)
        (failed_entry (self.timestamp n) code) db

  -- An acknowledgement that took effect: exactly one outbox entry and, except for uploads, exactly
  -- one row of the submission's table are marked, and nothing else is changed; the entry says so.
  abbrev pub Acknowledges : Text → Db → Db → Type 0
  Acknowledges payload db db' =
      (db' ≡ acknowledged payload db)
      × OneChanged kind (update_status kind "mirrored" id (some payload) db).0
      × (count_where (is_settled_entry kind id payload) db.outbox ≡ 1)
      × Several (IsMarked kind id payload) 1 db'.outbox

  -- A failure that was recorded in the transaction that began at the call `n`: exactly one open
  -- entry and, except for uploads, exactly one row are changed, and nothing else; the entry counts
  -- the failure and is due later.
  abbrev pub Records : ℕ → Text → Db → Db → Type 0
  Records n code db db' =
      (db' ≡ failed n code db)
      × OneChanged kind (update_status kind "retryable_failure" id none db).0
      × (count_where (is_open_entry kind id) db.outbox ≡ 1)
      × Several (IsDelayed kind id (self.timestamp n) code) 1 db'.outbox

  -- What the two updates of a transaction leave is an effect as the two above.
  marks :
      (payload : Text) (db : Db) {db' : Db}
      → (db' ≡ acknowledged payload db)
        × OneChanged kind (update_status kind "mirrored" id (some payload) db).0
        × (count_where (is_settled_entry kind id payload) db.outbox ≡ 1)
      → Acknowledges payload db db'
  marks payload db {db'} (new, rows, one) =
      let left =
        Several-modify (IsMarked kind id payload) (is_settled_entry kind id payload) mirrored_entry
          (mirrored-IsMarked kind id payload) db.outbox in
      let box : db'.outbox ≡ (acknowledged payload db).outbox = ap (λ d. d.outbox) new in
      (
        new,
        rows,
        one,
        subst (λ m. Several (IsMarked kind id payload) m db'.outbox) one (rw box left),
      )

  delays :
      (n : ℕ) (code : Text) (db : Db) {db' : Db}
      → (db' ≡ failed n code db)
        × OneChanged kind (update_status kind "retryable_failure" id none db).0
        × (count_where (is_open_entry kind id) db.outbox ≡ 1)
      → Records n code db db'
  delays n code db {db'} (new, rows, one) =
      let P = IsDelayed kind id (self.timestamp n) code in
      let left =
        Several-modify P (is_open_entry kind id) (failed_entry (self.timestamp n) code)
          (failed-IsDelayed kind id (self.timestamp n) code) db.outbox in
      let box : db'.outbox ≡ (failed n code db).outbox = ap (λ d. d.outbox) new in
      (new, rows, one, subst (λ m. Several P m db'.outbox) one (rw box left))

  -- A successful acknowledgement took effect.
  pub mark_mirrored-eq-ok :
      (payload : Text) (s : Session) {s' : Session}
      → mark_mirrored self kind id payload s ≡ (ok tt, s')
      → Acknowledges payload s.db s'.db
  unfolding mark_mirrored
  mark_mirrored-eq-ok payload s h =
      let (ended, db) = in_transaction-eq-ok self _ s h in
      let (new, rows, entries) =
        both_ended kind id "mirrored" (some payload) self (is_settled_entry kind id payload)
          mirrored_entry (tick s) ended in
      marks payload s.db (db ∙ new, rows, entries)

  -- Whatever calls fail, an acknowledgement changes nothing, or it marks exactly one outbox entry of
  -- this submission and payload and, except for uploads, exactly one row, and nothing else.
  pub mark_mirrored_atomic :
      (payload : Text) (s : Session)
      → ((mark_mirrored self kind id payload s).1.db ≡ s.db)
        ⊎ Acknowledges payload s.db (mark_mirrored self kind id payload s).1.db
  unfolding mark_mirrored
  mark_mirrored_atomic payload s =
      in_transaction_db self _ s (λ db. (db ≡ s.db) ⊎ Acknowledges payload s.db db) (inl refl)
        (λ a e. inr (
          marks payload s.db (
            both_ended kind id "mirrored" (some payload) self (is_settled_entry kind id payload)
              mirrored_entry (tick s) e)))

  -- A failure that was recorded took effect.
  pub record_mirror_failure-eq-ok :
      (code : Text) (s : Session) {s' : Session}
      → record_mirror_failure self kind id code s ≡ (ok tt, s')
      → Records s.calls code s.db s'.db
  unfolding record_mirror_failure
  record_mirror_failure-eq-ok code s h = elim (Bool-cases (valid_error_code code)) [
    | inr invalid ↦ ground (arith, invalid, h)
    | inl valid ↦
        let (ended, db) = in_transaction-eq-ok self _ s (rw valid at h) in
        let (new, rows, entries) =
          both_ended kind id "retryable_failure" none self (is_open_entry kind id)
            (failed_entry (self.timestamp s.calls) code) (tick s) ended in
        delays s.calls code s.db (db ∙ new, rows, entries)
  ]

  -- Whatever calls fail, recording a failure changes nothing, or it changes exactly one entry of
  -- this submission with fewer than 100 attempts and, except for uploads, exactly one row, and
  -- nothing else; the entry then has the error and a later date, and it failed terminally exactly
  -- if this was the attempt 100.
  pub record_mirror_failure_atomic :
      (code : Text) (s : Session)
      → ((record_mirror_failure self kind id code s).1.db ≡ s.db)
        ⊎ Records s.calls code s.db (record_mirror_failure self kind id code s).1.db
  unfolding record_mirror_failure
  record_mirror_failure_atomic code s = elim (Bool-cases (valid_error_code code)) [
    | inr invalid ↦ rw invalid (inl refl)
    | inl valid ↦ rw valid (
        in_transaction_db self _ s (λ db. (db ≡ s.db) ⊎ Records s.calls code s.db db) (inl refl)
          (λ a e. inr (
            delays s.calls code s.db (
              both_ended kind id "retryable_failure" none self (is_open_entry kind id)
                (failed_entry (self.timestamp s.calls) code) (tick s) e))))
  ]
