-- ===== src/Persistence/Invariant/Keys.antt =====
-- The predicate that in each table a key names one row, and the steps.
use hhm_api_server_rs.Common.{
  ℕ, ◌≡◌, refl, Bool, false, Option, none, List, [], ◌∷◌, Text, Text-Eq, String, arith, any,
  modify_where, ◌==◌,
}
use hhm_api_server_rs.Persistence.Kinds.{
  PersistenceTarget, primary, supabase_mirror, StoredSubmissionKind, pre_interest, upload,
  application, referral,
}
use hhm_api_server_rs.Persistence.Context.{Uuid, SubmissionContext}
use hhm_api_server_rs.Persistence.Rows.{Row, UploadRow, OutboxRow, Db, Table}
use hhm_api_server_rs.Persistence.Session.{WriteContext}
use hhm_api_server_rs.Persistence.Submit.{StoredSubmission}
use hhm_api_server_rs.Persistence.Submit.Recorded.{Recorded, created, replayed, entered}
use hhm_api_server_rs.Persistence.Uploads.{StoredUpload, find_upload, verified_row}
use hhm_api_server_rs.Persistence.Uploads.Recorded.{Reserved}
use hhm_api_server_rs.Persistence.Outbox.{update_status}
use hhm_api_server_rs.Persistence.Outbox.Laws.{updated}
use hhm_api_server_rs.Persistence.Invariant.{
  keys, upload_keys, Distinct, keys_of_missing, keys-set_status,
}

pub record KeysDistinct (db : Db) : Type 0 where
  pub of_pre_interests : Distinct (keys db.pre_interests)
  pub of_uploads : Distinct (upload_keys db.uploads)
  pub of_applications : Distinct (keys db.applications)
  pub of_referrals : Distinct (keys db.referrals)

KeysDistinct-entered :
    (self : WriteContext) (target : PersistenceTarget) (kind : StoredSubmissionKind) (n : ℕ)
    (id : Uuid) (payload : Text) (db : Db)
    → KeysDistinct db
    → KeysDistinct (entered self target kind n id payload db)
KeysDistinct-entered self primary kind n id payload db h = record {
  of_pre_interests = h.of_pre_interests;
  of_uploads = h.of_uploads;
  of_applications = h.of_applications;
  of_referrals = h.of_referrals;
}
KeysDistinct-entered self supabase_mirror kind n id payload db h = h

module _ {P : Type 0} (self : WriteContext) (target : PersistenceTarget)
    (kind : StoredSubmissionKind) (table : Table P) (context : SubmissionContext)
    (values : ℕ → Row P) (keyed : (n : ℕ) → (values n).idempotency_key ≡ context.idempotency_key)
    (inserts : (row : Row P) (db : Db)
      → Distinct (keys (row ∷ table.rows db))
      → KeysDistinct db
      → KeysDistinct (table.set_rows (row ∷ table.rows db) db))
    (reads : (db : Db) → KeysDistinct db → Distinct (keys (table.rows db))) where
  -- An accepted submission keeps the keys distinct.
  pub Recorded-KeysDistinct :
      {db db' : Db} {stored : StoredSubmission}
      → Recorded self target kind table context values db stored db'
      → KeysDistinct db
      → KeysDistinct db'
  Recorded-KeysDistinct {db} {stored} (created n m missing is after) h =
      let fresh : any (λ j. j == (values n).idempotency_key) (keys (table.rows db)) ≡ false =
        rw keyed (keys_of_missing context.idempotency_key (table.rows db) missing) in
      rw after (
        KeysDistinct-entered self target kind m stored.id context.payload_sha256 _
          (inserts (values n) db (fresh, reads db h) h))
  Recorded-KeysDistinct (replayed r found paid is after) h = rw after h

upload_keys_of_missing :
    (key : Text) (rows : List UploadRow)
    → find_upload key rows ≡ none
    → any (λ j. j == key) (upload_keys rows) ≡ false
upload_keys_of_missing key [] h = refl
upload_keys_of_missing key (r ∷ rs) h = ground (arith, upload_keys_of_missing key rs)

module _ (self : WriteContext) (target : PersistenceTarget) (context : SubmissionContext)
    (row : UploadRow) (keyed : row.idempotency_key ≡ context.idempotency_key) where
  pub Reserved-KeysDistinct :
      {db db' : Db} {stored : StoredUpload}
      → Reserved self target context row db stored db'
      → KeysDistinct db
      → KeysDistinct db'
  Reserved-KeysDistinct {db} {stored} (Reserved.created m missing is after) h =
      let fresh : any (λ j. j == row.idempotency_key) (upload_keys db.uploads) ≡ false =
        rw keyed (upload_keys_of_missing context.idempotency_key db.uploads missing) in
      rw after (
        KeysDistinct-entered self target upload m stored.id context.payload_sha256 _ (record {
          of_pre_interests = h.of_pre_interests;
          of_uploads = (fresh, h.of_uploads);
          of_applications = h.of_applications;
          of_referrals = h.of_referrals;
        }))
  Reserved-KeysDistinct (Reserved.replayed r found paid is after) h = rw after h

module _ (test : UploadRow → Bool) (now : ℕ) where
  upload_keys-verified :
      (rows : List UploadRow)
      → upload_keys (modify_where test (verified_row now) rows) ≡ upload_keys rows
  upload_keys-verified [] = refl
  upload_keys-verified (r ∷ rs) = ground (arith, upload_keys-verified rs)

  -- A verification changes no key.
  pub verified-KeysDistinct :
      (db : Db)
      → KeysDistinct db
      → KeysDistinct (record db { uploads = modify_where test (verified_row now) db.uploads })
  verified-KeysDistinct db h = record {
    of_pre_interests = h.of_pre_interests;
    of_uploads = rw (upload_keys-verified db.uploads) h.of_uploads;
    of_applications = h.of_applications;
    of_referrals = h.of_referrals;
  }

module _ (id : Uuid) (status : String) (payload : Option Text) (test : OutboxRow → Bool)
    (change : OutboxRow → OutboxRow) (db : Db) (h : KeysDistinct db) where
  -- Nor does an update of the statuses.
  pub updated-KeysDistinct :
      (kind : StoredSubmissionKind) → KeysDistinct (updated kind id status payload test change db)
  unfolding update_status
  updated-KeysDistinct pre_interest = record {
    of_pre_interests = rw keys-set_status h.of_pre_interests;
    of_uploads = h.of_uploads;
    of_applications = h.of_applications;
    of_referrals = h.of_referrals;
  }
  updated-KeysDistinct application = record {
    of_pre_interests = h.of_pre_interests;
    of_uploads = h.of_uploads;
    of_applications = rw keys-set_status h.of_applications;
    of_referrals = h.of_referrals;
  }
  updated-KeysDistinct referral = record {
    of_pre_interests = h.of_pre_interests;
    of_uploads = h.of_uploads;
    of_applications = h.of_applications;
    of_referrals = rw keys-set_status h.of_referrals;
  }
  updated-KeysDistinct upload = record {
    of_pre_interests = h.of_pre_interests;
    of_uploads = h.of_uploads;
    of_applications = h.of_applications;
    of_referrals = h.of_referrals;
  }
