-- ===== src/Persistence/Uploads/Verify.antt =====
-- `pending_upload` and `verify_upload` of src/persistence.rs.
use hhm_api_server_rs.Common.{
  pos, ◌≡◌, refl, ◌⊎◌, inl, inr, Bool, true, Option, none, some, List, [], ◌∷◌, Text, arith, find,
  count_where, modify_where, Option-cases, Bool-cases, Text-Eq,
}
use hhm_api_server_rs.Common.Result.{ok}
use hhm_api_server_rs.Persistence.Context.{Uuid, VerifiedSubject, valid_digest}
use hhm_api_server_rs.Persistence.Rows.{UploadRow}
use hhm_api_server_rs.Persistence.Session.{
  Fault, fine, refused, unacknowledged, WriteContext, Session, query_one, statement,
}
use hhm_api_server_rs.Persistence.Uploads.{
  PendingUpload, is_live, verifies, verified_row, pending_from_row, pending_upload, verify_upload,
}

module _ {A : Type 0} (p : A → Bool) where
  -- A search finds an element that passes.
  pub find_sound : (xs : List A) {x : A} → find p xs ≡ some x → p x ≡ true
  find_sound [] h = cc
  find_sound (y ∷ ys) {x} h = elim (Bool-cases (p y)) [
    | inl yes' ↦ ground (arith, yes')
    | inr no' ↦ find_sound ys (rw no' at h)
  ]

-- A call took no effect exactly if it was refused.
Fault-cases : (f : Fault) → (f ≡ refused) ⊎ ((f ≡ fine) ⊎ (f ≡ unacknowledged))
Fault-cases fine = inr (inl refl)
Fault-cases refused = inl refl
Fault-cases unacknowledged = inr (inr refl)

module _ (self : WriteContext) (upload_id : Uuid) (subject : Option VerifiedSubject) where
  pending_of_row :
      (s : Session) {pending : PendingUpload} {s' : Session} (row : UploadRow)
      → find (is_live upload_id subject (self.timestamp s.calls)) s.db.uploads ≡ some row
      → pending_upload self upload_id subject s ≡ (ok pending, s')
      → (pending ≡ record {
        id = row.id;
        object_key = row.object_key;
        expected_sha256 = row.content_sha256;
        content_type = row.content_type;
        size_bytes = pending.size_bytes;
        expires_at = row.expires_at;
      })
        × (row.size_bytes ≡ pos pending.size_bytes)
        × (s'.db ≡ s.db)
  unfolding pending_upload pending_from_row query_one
  pending_of_row s row found h = ground (arith, found)

  pending_of_none :
      (s : Session) {pending : PendingUpload} {s' : Session}
      → find (is_live upload_id subject (self.timestamp s.calls)) s.db.uploads ≡ none
      → pending_upload self upload_id subject s ≡ (ok pending, s')
      → ⊥
  unfolding pending_upload query_one
  pending_of_none s missing h = ground (arith, missing)

  -- A pending upload that was returned is a row of this identifier and owner that has not expired
  -- and is still open, and nothing was changed.
  pub pending_upload-eq-ok :
      (s : Session) {pending : PendingUpload} {s' : Session}
      → pending_upload self upload_id subject s ≡ (ok pending, s')
      → (row : UploadRow) × (find (is_live upload_id subject (self.timestamp s.calls)) s.db.uploads
          ≡ some row)
        × (is_live upload_id subject (self.timestamp s.calls) row ≡ true)
        × (pending ≡ record {
          id = row.id;
          object_key = row.object_key;
          expected_sha256 = row.content_sha256;
          content_type = row.content_type;
          size_bytes = pending.size_bytes;
          expires_at = row.expires_at;
        })
        × (row.size_bytes ≡ pos pending.size_bytes)
        × (s'.db ≡ s.db)
  pending_upload-eq-ok s {pending} h =
      let test = is_live upload_id subject (self.timestamp s.calls) in
      elim (Option-cases (find test s.db.uploads)) [
        | inl missing ↦ absurd (pending_of_none s missing h)
        | inr (row, found) ↦
            let (is, size, db) = pending_of_row s row found h in
            (row, found, find_sound test s.db.uploads found, is, size, db)
      ]

  -- A verification that succeeded changed exactly one upload: the live one of this identifier and
  -- owner whose declared digest is the observed one; no other row and no other table changed.
  pub verify_upload-eq-ok :
      (digest : Text) (s : Session) {s' : Session}
      → verify_upload self upload_id subject digest s ≡ (ok tt, s')
      → (valid_digest digest ≡ true)
        × (count_where (verifies upload_id subject digest (self.timestamp s.calls)) s.db.uploads
            ≡ 1)
        × (s'.db ≡ record s.db {
          uploads =
              modify_where
                (verifies upload_id subject digest (self.timestamp s.calls))
                (verified_row (self.timestamp s.calls))
                s.db.uploads;
        })
  unfolding verify_upload statement
  verify_upload-eq-ok digest s h = elim (Bool-cases (valid_digest digest)) [
    | inl valid ↦ (valid, ground (arith, valid), ground (arith, valid))
    | inr invalid ↦ ground (arith, invalid)
  ]

  -- A look at a pending upload changes nothing.
  pub pending_upload_db : (s : Session) → (pending_upload self upload_id subject s).1.db ≡ s.db
  unfolding pending_upload query_one
  pending_upload_db s = ground arith

  -- Whatever calls fail, a verification changes nothing or does its whole update.
  pub verify_upload_atomic :
      (digest : Text) (s : Session)
      → ((verify_upload self upload_id subject digest s).1.db ≡ s.db)
        ⊎ ((verify_upload self upload_id subject digest s).1.db ≡ record s.db {
          uploads =
              modify_where
                (verifies upload_id subject digest (self.timestamp s.calls))
                (verified_row (self.timestamp s.calls))
                s.db.uploads;
        })
  unfolding verify_upload statement
  verify_upload_atomic digest s = elim (Bool-cases (valid_digest digest)) [
    | inr invalid ↦ rw invalid (inl refl)
    | inl valid ↦ elim (Fault-cases (self.outcome s.calls)) [
      | inl lost ↦ inl (ground (arith, valid, lost))
      | inr kept ↦ inr (ground (arith, valid, kept))
    ]
  ]
