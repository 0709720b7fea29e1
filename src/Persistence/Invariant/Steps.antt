-- ===== src/Persistence/Invariant/Steps.antt =====
-- src/persistence.rs: every command as a step of one database, and histories of such steps.
use hhm_api_server_rs.Common.{ℕ, ℤ, ◌≡◌, inl, inr, Bool, Option, Text, modify_where}
use hhm_api_server_rs.Persistence.Kinds.{
  PersistenceTarget, primary, supabase_mirror, StoredSubmissionKind,
}
use hhm_api_server_rs.Persistence.Kinds
use hhm_api_server_rs.Persistence.Context.{Uuid, VerifiedSubject, SubmissionContext}
use hhm_api_server_rs.Persistence.Inputs.{
  Contract, PreInterestCreate, ApplicationCreate, ReferralCreate, UploadIntentCreate,
}
use hhm_api_server_rs.Persistence.Rows.{
  UploadRow, Db, pre_interest_table, application_table, referral_table,
}
use hhm_api_server_rs.Persistence.Session.{WriteContext, Session}
use hhm_api_server_rs.Persistence.Submit.{
  StoredSubmission, pre_interest_row, referral_row, store_pre_interest, store_referral,
}
use hhm_api_server_rs.Persistence.Submit.Recorded.{Recorded}
use hhm_api_server_rs.Persistence.Application.{application_row, store_application}
use hhm_api_server_rs.Persistence.Refinement.{
  store_pre_interest-Submits, store_referral_atomic, store_application_atomic,
}
use hhm_api_server_rs.Persistence.Uploads.{
  StoredUpload, store_upload_intent, pending_upload, verify_upload, verifies, verified_row,
}
use hhm_api_server_rs.Persistence.Uploads.Verify.{pending_upload_db, verify_upload_atomic}
use hhm_api_server_rs.Persistence.Uploads.Recorded.{
  Reserved, intent_row, store_upload_intent_atomic,
}
use hhm_api_server_rs.Persistence.Outbox.{mark_mirrored, record_mirror_failure}
use hhm_api_server_rs.Persistence.Outbox.Laws.{
  acknowledged, failed, mark_mirrored_atomic, record_mirror_failure_atomic,
}

module _ (contract : Contract) (self : WriteContext) (target : PersistenceTarget) where
  -- One command, with any arguments, run from a session to the session that it leaves; which calls
  -- fail is up to the connection.
  pub data Step : Session → Session → Type 0 where
    pre_interest :
        (context : SubmissionContext) (input : PreInterestCreate) (s : Session)
        → Step s (store_pre_interest contract self target context input s).1
    application :
        (context : SubmissionContext) (input : ApplicationCreate) (s : Session)
        → Step s (store_application contract self target context input s).1
    referral :
        (context : SubmissionContext) (input : ReferralCreate) (s : Session)
        → Step s (store_referral contract self target context input s).1
    intent :
        (context : SubmissionContext) (input : UploadIntentCreate) (now : ℕ) (s : Session)
        → Step s (store_upload_intent contract self target context input now s).1
    pending :
        (id : Uuid) (subject : Option VerifiedSubject) (s : Session)
        → Step s (pending_upload self id subject s).1
    verification :
        (id : Uuid) (subject : Option VerifiedSubject) (digest : Text) (s : Session)
        → Step s (verify_upload self id subject digest s).1
    acknowledgement :
        (kind : StoredSubmissionKind) (id : Uuid) (payload : Text) (s : Session)
        → Step s (mark_mirrored self kind id payload s).1
    failure :
        (kind : StoredSubmissionKind) (id : Uuid) (code : Text) (s : Session)
        → Step s (record_mirror_failure self kind id code s).1

  pub data Reach (s : Session) : Session → Type 0 where
    here : Reach s s
    next : {t u : Session} → Reach s t → Step t u → Reach s u

  -- What a step can do to the database.
  pub data Effect (db db' : Db) : Type 0 where
    same : db' ≡ db → Effect db db'
    new_pre_interest :
        (context : SubmissionContext) (input : PreInterestCreate) (a : StoredSubmission)
        → Recorded self target Kinds.pre_interest pre_interest_table context
            (pre_interest_row contract self target context input)
            db
            a
            db'
        → Effect db db'
    new_application :
        (context : SubmissionContext) (input : ApplicationCreate) (occupancy : ℤ)
        (a : StoredSubmission)
        → Recorded self target Kinds.application application_table context
            (application_row contract self target context input occupancy)
            db
            a
            db'
        → Effect db db'
    new_referral :
        (context : SubmissionContext) (input : ReferralCreate) (subject : Text)
        (a : StoredSubmission)
        → Recorded self target Kinds.referral referral_table context
            (referral_row contract self target context subject input)
            db
            a
            db'
        → Effect db db'
    new_upload :
        (context : SubmissionContext) (input : UploadIntentCreate) (now : ℕ) (prefix : Text)
        (size : ℤ) (a : StoredUpload)
        → Reserved self target context
            (intent_row contract self target context input now prefix size)
            db
            a
            db'
        → Effect db db'
    verified :
        (test : UploadRow → Bool) (now : ℕ)
        → db' ≡ record db { uploads = modify_where test (verified_row now) db.uploads }
        → Effect db db'
    settled :
        (kind : StoredSubmissionKind) (id : Uuid) (payload : Text)
        → db' ≡ acknowledged self kind id payload db
        → Effect db db'
    delayed :
        (kind : StoredSubmissionKind) (id : Uuid) (n : ℕ) (code : Text)
        → db' ≡ failed self kind id n code db
        → Effect db db'

  -- Every step has one of these effects.
  pub Step-Effect : {s t : Session} → Step s t → Effect s.db t.db
  Step-Effect (pre_interest context input s) =
      elim ((store_pre_interest-Submits contract self target context input).atomic s) [
        | inl e ↦ same e
        | inr (a, r) ↦ new_pre_interest context input a r
      ]
  Step-Effect (application context input s) =
      elim (store_application_atomic contract self target context input s) [
        | inl e ↦ same e
        | inr (occupancy, a, fits, uploads, r) ↦ new_application context input occupancy a r
      ]
  Step-Effect (referral context input s) =
      elim (store_referral_atomic contract self target context input s) [
        | inl e ↦ same e
        | inr (subject, a, known, r) ↦ new_referral context input subject a r
      ]
  Step-Effect (intent context input now s) =
      elim (store_upload_intent_atomic contract self target context input now s) [
        | inl e ↦ same e
        | inr (a, r) ↦ new_upload context input now r.prefix r.size a r.reserved
      ]
  Step-Effect (pending id subject s) = same (pending_upload_db self id subject s)
  Step-Effect (verification id subject digest s) =
      elim (verify_upload_atomic self id subject digest s) [
        | inl e ↦ same e
        | inr e ↦
            verified (verifies id subject digest (self.timestamp s.calls)) (self.timestamp s.calls)
              e
      ]
  Step-Effect (acknowledgement kind id payload s) =
      elim (mark_mirrored_atomic self kind id payload s) [
        | inl e ↦ same e
        | inr (e, _, _, _) ↦ settled kind id payload e
      ]
  Step-Effect (failure kind id code s) = elim (record_mirror_failure_atomic self kind id code s) [
    | inl e ↦ same e
    | inr (e, _, _, _) ↦ delayed kind id s.calls code e
  ]

  -- What every effect keeps holds after every history.
  pub Reach-induction :
      (P : Db → Type 0)
      → ((db db' : Db) → Effect db db' → P db → P db')
      → {s t : Session} → Reach s t
      → P s.db
      → P t.db
  Reach-induction P keeps here h = h
  Reach-induction P keeps (next {t} {u} r step) h =
      keeps t.db u.db (Step-Effect step) (Reach-induction P keeps r h)
