-- ===== src/Persistence/Invariant/Histories.antt =====
-- Invariants of the histories of commands on one database.
use hhm_api_server_rs.Common.{ℕ, ◌<◌, ◌≡◌, refl, inl, none, some, List, Text, All, arith}
use hhm_api_server_rs.Persistence.Kinds.{PersistenceTarget, primary, supabase_mirror}
use hhm_api_server_rs.Persistence.Kinds
use hhm_api_server_rs.Persistence.Inputs.{Contract}
use hhm_api_server_rs.Persistence.Context.{Uuid, SubmissionContext}
use hhm_api_server_rs.Persistence.Rows.{
  Row, Db, Table, pre_interest_table, application_table, referral_table,
}
use hhm_api_server_rs.Persistence.Session.{WriteContext, Session}
use hhm_api_server_rs.Persistence.Submit.{StoredSubmission, pre_interest_row, referral_row}
use hhm_api_server_rs.Persistence.Submit.Recorded.{Recorded, entered}
use hhm_api_server_rs.Persistence.Application.{application_row}
use hhm_api_server_rs.Persistence.Uploads.Recorded.{Reserved, intent_row}
use hhm_api_server_rs.Persistence.Outbox.{
  is_settled_entry, mirrored_entry, is_open_entry, failed_entry,
}
use hhm_api_server_rs.Persistence.Outbox.Schedule.{
  IsSound, record_failure-IsSound, mark_mirrored-IsSound,
}
use hhm_api_server_rs.Persistence.Invariant.Keys.{
  KeysDistinct, Recorded-KeysDistinct, Reserved-KeysDistinct, verified-KeysDistinct,
  updated-KeysDistinct,
}
use hhm_api_server_rs.Persistence.Invariant.Entries.{
  OutboxCovers, Recorded-OutboxCovers, Reserved-OutboxCovers, verified-OutboxCovers,
  updated-OutboxCovers,
}
use hhm_api_server_rs.Persistence.Invariant.Steps.{
  Reach, Effect, same, new_pre_interest, new_application, new_referral, new_upload, verified,
  settled, delayed, Reach-induction,
}

module _ (contract : Contract) (self : WriteContext) where
  module _ (target : PersistenceTarget) where
    Effect-KeysDistinct :
        (db db' : Db) → Effect contract self target db db' → KeysDistinct db → KeysDistinct db'
    Effect-KeysDistinct db db' (same e) h = rw e h
    Effect-KeysDistinct db db' (new_pre_interest context input a r) h =
        Recorded-KeysDistinct self target Kinds.pre_interest pre_interest_table context
          (pre_interest_row contract self target context input) (λ n. refl)
          (λ row d k l. record {
            of_pre_interests = k;
            of_uploads = l.of_uploads;
            of_applications = l.of_applications;
            of_referrals = l.of_referrals;
          })
          (λ d k. k.of_pre_interests) r h
    Effect-KeysDistinct db db' (new_application context input occupancy a r) h =
        Recorded-KeysDistinct self target Kinds.application application_table context
          (application_row contract self target context input occupancy) (λ n. refl)
          (λ row d k l. record {
            of_pre_interests = l.of_pre_interests;
            of_uploads = l.of_uploads;
            of_applications = k;
            of_referrals = l.of_referrals;
          })
          (λ d k. k.of_applications) r h
    Effect-KeysDistinct db db' (new_referral context input subject a r) h =
        Recorded-KeysDistinct self target Kinds.referral referral_table context
          (referral_row contract self target context subject input) (λ n. refl)
          (λ row d k l. record {
            of_pre_interests = l.of_pre_interests;
            of_uploads = l.of_uploads;
            of_applications = l.of_applications;
            of_referrals = k;
          })
          (λ d k. k.of_referrals) r h
    Effect-KeysDistinct db db' (new_upload context input now prefix size a r) h =
        Reserved-KeysDistinct self target context
          (intent_row contract self target context input now prefix size) refl r h
    Effect-KeysDistinct db db' (verified test now e) h = rw e (verified-KeysDistinct test now db h)
    Effect-KeysDistinct db db' (settled kind id payload e) h = rw e (
        updated-KeysDistinct id "mirrored" (some payload) (is_settled_entry kind id payload)
          mirrored_entry db h kind)
    Effect-KeysDistinct db db' (delayed kind id n code e) h = rw e (
        updated-KeysDistinct id "retryable_failure" none (is_open_entry kind id)
          (failed_entry (self.timestamp n) code) db h kind)

    -- After every history of commands, with any arguments and whatever calls fail, no table holds
    -- two rows with one idempotency key, if none did before.
    pub Reach-KeysDistinct :
        (s t : Session) → Reach contract self target s t → KeysDistinct s.db → KeysDistinct t.db
    Reach-KeysDistinct s t r h =
        Reach-induction contract self target KeysDistinct Effect-KeysDistinct r h

  Effect-OutboxCovers :
      (db db' : Db) → Effect contract self primary db db' → OutboxCovers db → OutboxCovers db'
  Effect-OutboxCovers db db' (same e) h = rw e h
  Effect-OutboxCovers db db' (new_pre_interest context input a r) h =
      Recorded-OutboxCovers self Kinds.pre_interest pre_interest_table context
        (pre_interest_row contract self primary context input) (λ n. refl)
        (λ e row d k l. record {
          of_pre_interests = (k, l.of_pre_interests);
          of_uploads = l.of_uploads;
          of_applications = l.of_applications;
          of_referrals = l.of_referrals;
        })
        r h
  Effect-OutboxCovers db db' (new_application context input occupancy a r) h =
      Recorded-OutboxCovers self Kinds.application application_table context
        (application_row contract self primary context input occupancy) (λ n. refl)
        (λ e row d k l. record {
          of_pre_interests = l.of_pre_interests;
          of_uploads = l.of_uploads;
          of_applications = (k, l.of_applications);
          of_referrals = l.of_referrals;
        })
        r h
  Effect-OutboxCovers db db' (new_referral context input subject a r) h =
      Recorded-OutboxCovers self Kinds.referral referral_table context
        (referral_row contract self primary context subject input) (λ n. refl)
        (λ e row d k l. record {
          of_pre_interests = l.of_pre_interests;
          of_uploads = l.of_uploads;
          of_applications = l.of_applications;
          of_referrals = (k, l.of_referrals);
        })
        r h
  Effect-OutboxCovers db db' (new_upload context input now prefix size a r) h =
      Reserved-OutboxCovers self context
        (intent_row contract self primary context input now prefix size) refl r h
  Effect-OutboxCovers db db' (verified test now e) h = rw e (verified-OutboxCovers test now db h)
  Effect-OutboxCovers db db' (settled kind id payload e) h = rw e (
      updated-OutboxCovers id "mirrored" (some payload) (is_settled_entry kind id payload)
        mirrored_entry (λ k i p x. refl) db h kind)
  Effect-OutboxCovers db db' (delayed kind id n code e) h = rw e (
      updated-OutboxCovers id "retryable_failure" none (is_open_entry kind id)
        (failed_entry (self.timestamp n) code) (λ k i p x. refl) db h kind)

  -- After every history of commands on the primary, whatever calls fail, every row of every table
  -- has an outbox entry of its kind with its identifier and payload digest, if each had before.
  pub Reach-OutboxCovers :
      (s t : Session) → Reach contract self primary s t → OutboxCovers s.db → OutboxCovers t.db
  Reach-OutboxCovers s t r h =
      Reach-induction contract self primary OutboxCovers Effect-OutboxCovers r h

  module _ (target : PersistenceTarget) (young : self.attempts_default < 100) where
    abbrev OutboxSound : Db → Type 0
    OutboxSound db = All IsSound db.outbox

    entered-IsSound :
        (t : PersistenceTarget) (kind : Kinds.StoredSubmissionKind) (n : ℕ) (id : Uuid)
        (payload : Text) (db : Db)
        → All IsSound db.outbox
        → All IsSound (entered self t kind n id payload db).outbox
    entered-IsSound primary kind n id payload db h = ((omega arith, inl young), h)
    entered-IsSound supabase_mirror kind n id payload db h = h

    recorded-IsSound :
        {P : Type 0} (kind : Kinds.StoredSubmissionKind) (table : Table P)
        (context : SubmissionContext) (values : ℕ → Row P) (db : Db) {db' : Db}
        {stored : StoredSubmission}
        → ((rows : List (Row P)) → (table.set_rows rows db).outbox ≡ db.outbox)
        → Recorded self target kind table context values db stored db'
        → All IsSound db.outbox
        → All IsSound db'.outbox
    recorded-IsSound kind table context values db {db'} {stored} aside
          (Recorded.created n m missing is after) h =
        rw after (entered-IsSound target kind m stored.id context.payload_sha256 _ (rw aside h))
    recorded-IsSound kind table context values db aside (Recorded.replayed r found paid is after)
          h =
        rw after h

    Effect-OutboxSound :
        (db db' : Db) → Effect contract self target db db' → OutboxSound db → OutboxSound db'
    Effect-OutboxSound db db' (same e) h = rw e h
    Effect-OutboxSound db db' (new_pre_interest context input a r) h =
        recorded-IsSound Kinds.pre_interest pre_interest_table context _ db (λ rows. refl) r h
    Effect-OutboxSound db db' (new_application context input occupancy a r) h =
        recorded-IsSound Kinds.application application_table context _ db (λ rows. refl) r h
    Effect-OutboxSound db db' (new_referral context input subject a r) h =
        recorded-IsSound Kinds.referral referral_table context _ db (λ rows. refl) r h
    Effect-OutboxSound db db'
          (new_upload context input now prefix size a (Reserved.created m missing is after)) h =
        rw after (entered-IsSound target Kinds.upload m a.id context.payload_sha256 _ h)
    Effect-OutboxSound db db'
          (new_upload context input now prefix size a (Reserved.replayed r found paid is after)) h =
        rw after h
    Effect-OutboxSound db db' (verified test now e) h = rw e h
    Effect-OutboxSound db db' (settled kind id payload e) h =
        rw e (mark_mirrored-IsSound (is_settled_entry kind id payload) db.outbox h)
    Effect-OutboxSound db db' (delayed kind id n code e) h =
        rw e (record_failure-IsSound kind id (self.timestamp n) code db.outbox h)

    -- After every history of commands, whatever calls fail, no outbox entry was tried more than
    -- 100 times, and one that was tried 100 times failed terminally or was mirrored since; if this
    -- held before, and the schema starts an entry with fewer than 100 attempts.
    pub Reach-IsSound :
        (s t : Session)
        → Reach contract self target s t
        → All IsSound s.db.outbox
        → All IsSound t.db.outbox
    Reach-IsSound s t r h = Reach-induction contract self target OutboxSound Effect-OutboxSound r h
