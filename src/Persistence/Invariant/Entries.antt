-- ===== src/Persistence/Invariant/Entries.antt =====
-- The predicate that every row has an outbox entry with its identifier and payload digest.
use mathlib.Core.Path.{subst}
use hhm_api_server_rs.Common.{
  ℕ, ◌≡◌, refl, sym, Bool, Option, List, [], ◌∷◌, Text, String, arith, modify_where, text_eq_iff,
  nat_eq_iff,
}
use hhm_api_server_rs.Persistence.Kinds.{
  primary, StoredSubmissionKind, pre_interest, upload, application, referral,
}
use hhm_api_server_rs.Persistence.Context.{Uuid, SubmissionContext}
use hhm_api_server_rs.Persistence.Rows.{Row, UploadRow, OutboxRow, Db, Table}
use hhm_api_server_rs.Persistence.Session.{WriteContext}
use hhm_api_server_rs.Persistence.Submit.{StoredSubmission, outbox_row}
use hhm_api_server_rs.Persistence.Submit.Recorded.{Recorded, created, replayed}
use hhm_api_server_rs.Persistence.Uploads.{StoredUpload, verified_row}
use hhm_api_server_rs.Persistence.Uploads.Recorded.{Reserved}
use hhm_api_server_rs.Persistence.Outbox.{update_status, is_settled_entry}
use hhm_api_server_rs.Persistence.Outbox.Laws.{updated}
use hhm_api_server_rs.Persistence.Invariant.{
  pairs, upload_pairs, HasEntry, Covered, Covered-cons, Covered-change, pairs-set_status,
}

pub record OutboxCovers (db : Db) : Type 0 where
  pub of_pre_interests : Covered pre_interest (pairs db.pre_interests) db.outbox
  pub of_uploads : Covered upload (upload_pairs db.uploads) db.outbox
  pub of_applications : Covered application (pairs db.applications) db.outbox
  pub of_referrals : Covered referral (pairs db.referrals) db.outbox

-- One more entry takes none away.
more :
    (e : OutboxRow) (db : Db)
    → OutboxCovers db
    → OutboxCovers (record db { outbox = e ∷ db.outbox })
more e db h = record {
  of_pre_interests =
      Covered-cons pre_interest e db.outbox (pairs db.pre_interests) h.of_pre_interests;
  of_uploads = Covered-cons upload e db.outbox (upload_pairs db.uploads) h.of_uploads;
  of_applications = Covered-cons application e db.outbox (pairs db.applications) h.of_applications;
  of_referrals = Covered-cons referral e db.outbox (pairs db.referrals) h.of_referrals;
}

-- The new entry is that of the new row.
own_entry :
    (self : WriteContext) (kind : StoredSubmissionKind) (n : ℕ) (id : Uuid) (payload : Text)
    (outbox : List OutboxRow)
    → HasEntry kind (outbox_row self primary kind n id payload ∷ outbox) (id, payload)
own_entry self pre_interest n id payload outbox =
    ground (arith, text_eq_iff payload payload, nat_eq_iff id id)
own_entry self _ n id payload outbox = ground (arith, text_eq_iff payload payload, nat_eq_iff id id)

module _ {P : Type 0} (self : WriteContext) (kind : StoredSubmissionKind) (table : Table P)
    (context : SubmissionContext) (values : ℕ → Row P)
    (paid : (n : ℕ) → (values n).payload_sha256 ≡ context.payload_sha256)
    (inserts : (e : OutboxRow) (row : Row P) (db : Db)
      → HasEntry kind (e ∷ db.outbox) (row.id, row.payload_sha256)
      → OutboxCovers (record db { outbox = e ∷ db.outbox })
      → OutboxCovers (record (table.set_rows (row ∷ table.rows db) db) {
        outbox = e ∷ (table.set_rows (row ∷ table.rows db) db).outbox;
      })) where
  -- An accepted submission to the primary comes with its entry.
  pub Recorded-OutboxCovers :
      {db db' : Db} {stored : StoredSubmission}
      → Recorded self primary kind table context values db stored db'
      → OutboxCovers db
      → OutboxCovers db'
  Recorded-OutboxCovers {db} {stored} (created n m missing is after) h =
      let e = outbox_row self primary kind m stored.id context.payload_sha256 in
      let entry : HasEntry kind (e ∷ db.outbox) ((values n).id, (values n).payload_sha256) =
        subst (HasEntry kind (e ∷ db.outbox)) (λ i. ((is i).id, sym (paid n) i))
          (own_entry self kind m stored.id context.payload_sha256 db.outbox) in
      rw after (inserts e (values n) db entry (more e db h))
  Recorded-OutboxCovers (replayed r found same is after) h = rw after h

module _ (self : WriteContext) (context : SubmissionContext) (row : UploadRow)
    (paid : row.payload_sha256 ≡ context.payload_sha256) where
  pub Reserved-OutboxCovers :
      {db db' : Db} {stored : StoredUpload}
      → Reserved self primary context row db stored db'
      → OutboxCovers db
      → OutboxCovers db'
  Reserved-OutboxCovers {db} {stored} (Reserved.created m missing is after) h =
      let e = outbox_row self primary upload m stored.id context.payload_sha256 in
      let entry : HasEntry upload (e ∷ db.outbox) (row.id, row.payload_sha256) =
        subst (HasEntry upload (e ∷ db.outbox)) (λ i. ((is i).id, sym paid i))
          (own_entry self upload m stored.id context.payload_sha256 db.outbox) in
      let old = more e db h in
      rw after (record {
        of_pre_interests = old.of_pre_interests;
        of_uploads = (entry, old.of_uploads);
        of_applications = old.of_applications;
        of_referrals = old.of_referrals;
      })
  Reserved-OutboxCovers (Reserved.replayed r found same is after) h = rw after h

module _ (test : UploadRow → Bool) (now : ℕ) where
  upload_pairs-verified :
      (rows : List UploadRow)
      → upload_pairs (modify_where test (verified_row now) rows) ≡ upload_pairs rows
  upload_pairs-verified [] = refl
  upload_pairs-verified (r ∷ rs) = ground (arith, upload_pairs-verified rs)

  pub verified-OutboxCovers :
      (db : Db)
      → OutboxCovers db
      → OutboxCovers (record db { uploads = modify_where test (verified_row now) db.uploads })
  verified-OutboxCovers db h = record {
    of_pre_interests = h.of_pre_interests;
    of_uploads = rw (upload_pairs-verified db.uploads) h.of_uploads;
    of_applications = h.of_applications;
    of_referrals = h.of_referrals;
  }

module _ (id : Uuid) (status : String) (payload : Option Text) (test : OutboxRow → Bool)
    (change : OutboxRow → OutboxRow)
    (keeps : (k : StoredSubmissionKind) (i : Uuid) (p : Text) (e : OutboxRow)
      → is_settled_entry k i p (change e) ≡ is_settled_entry k i p e)
    (db : Db) (h : OutboxCovers db) where
  changed : OutboxCovers (record db { outbox = modify_where test change db.outbox })
  changed = record {
    of_pre_interests =
        Covered-change pre_interest test change (keeps pre_interest) db.outbox
          (pairs db.pre_interests) h.of_pre_interests;
    of_uploads =
        Covered-change upload test change (keeps upload) db.outbox (upload_pairs db.uploads)
          h.of_uploads;
    of_applications =
        Covered-change application test change (keeps application) db.outbox (pairs db.applications)
          h.of_applications;
    of_referrals =
        Covered-change referral test change (keeps referral) db.outbox (pairs db.referrals)
          h.of_referrals;
  }

  -- An update of the statuses keeps every entry.
  pub updated-OutboxCovers :
      (kind : StoredSubmissionKind) → OutboxCovers (updated kind id status payload test change db)
  unfolding update_status
  updated-OutboxCovers pre_interest = record {
    of_pre_interests = rw pairs-set_status changed.of_pre_interests;
    of_uploads = changed.of_uploads;
    of_applications = changed.of_applications;
    of_referrals = changed.of_referrals;
  }
  updated-OutboxCovers application = record {
    of_pre_interests = changed.of_pre_interests;
    of_uploads = changed.of_uploads;
    of_applications = rw pairs-set_status changed.of_applications;
    of_referrals = changed.of_referrals;
  }
  updated-OutboxCovers referral = record {
    of_pre_interests = changed.of_pre_interests;
    of_uploads = changed.of_uploads;
    of_applications = changed.of_applications;
    of_referrals = rw pairs-set_status changed.of_referrals;
  }
  updated-OutboxCovers upload = record {
    of_pre_interests = changed.of_pre_interests;
    of_uploads = changed.of_uploads;
    of_applications = changed.of_applications;
    of_referrals = changed.of_referrals;
  }
