-- ===== src/Persistence/Uploads/Again.antt =====
-- src/persistence.rs: a verification that is repeated, as `complete_upload` does on a retry.
use mathlib.Core.Path.{subst}
use hhm_api_server_rs.Common.Several.{Several, Several-count}
use hhm_api_server_rs.Common.{
  ◌<◌, ◌⊎◌, String-Eq, option_eq_iff, text_eq_iff, ℕ, ◌≤◌, ◌≡◌, refl, ap, ap₂, ◌∙◌, inl, inr, true,
  Option, List, [], ◌∷◌, Text, Text-Eq, arith, any, count_where, modify_where, Bool-cases,
  if◌then◌else◌,
}
use hhm_api_server_rs.Common.Result.{ok}
use hhm_api_server_rs.Persistence.Context.{Uuid, VerifiedSubject, subject_text}
use hhm_api_server_rs.Persistence.Rows.{UploadRow}
use hhm_api_server_rs.Persistence.Session.{fine, WriteContext, Session, statement}
use hhm_api_server_rs.Persistence.Uploads.{verifies, verified_row, verify_upload}
use hhm_api_server_rs.Persistence.Uploads.Verify.{verify_upload-eq-ok}

module _ (id : Uuid) (subject : Option VerifiedSubject) (digest : Text) (now later : ℕ)
    (order : now ≤ later) where
  -- A row that passes later passed before.
  earlier :
      (row : UploadRow)
      → verifies id subject digest later row ≡ true
      → verifies id subject digest now row ≡ true
  earlier row h = ground (arith, order, h)

  -- A row that was marked passes later exactly if it did.
  marked_passes :
      (row : UploadRow)
      → verifies id subject digest now row ≡ true
      → verifies id subject digest later (verified_row now row)
        ≡ verifies id subject digest later row
  marked_passes row h = ground (arith, h)

  -- The second mark changes nothing.
  marked_twice :
      (row : UploadRow) → verified_row later (verified_row now row) ≡ verified_row now row
  marked_twice row = ground arith

  pub count-marked :
      (rows : List UploadRow)
      → count_where
          (verifies id subject digest later)
          (modify_where (verifies id subject digest now) (verified_row now) rows)
        ≡ count_where (verifies id subject digest later) rows
  count-marked [] = refl
  count-marked (r ∷ rs) = elim (Bool-cases (verifies id subject digest now r)) [
    | inl hit ↦ rw (hit, marked_passes r hit, count-marked rs)
    | inr other ↦ rw (other, count-marked rs)
  ]

  count-later :
      (rows : List UploadRow)
      → count_where (verifies id subject digest later) rows
        ≤ count_where (verifies id subject digest now) rows
  count-later [] = omega arith
  count-later (r ∷ rs) = elim (Bool-cases (verifies id subject digest later r)) [
    | inl hit ↦ rw (hit, earlier r hit) (omega (arith, count-later rs))
    | inr other ↦ elim (Bool-cases (verifies id subject digest now r)) [
      | inl before ↦ rw (other, before) (omega (arith, count-later rs))
      | inr never ↦ rw (other, never) (count-later rs)
    ]
  ]

  pub modify-marked :
      (rows : List UploadRow)
      → modify_where
          (verifies id subject digest later)
          (verified_row later)
          (modify_where (verifies id subject digest now) (verified_row now) rows)
        ≡ modify_where (verifies id subject digest now) (verified_row now) rows
  modify-marked [] = refl
  modify-marked (r ∷ rs) =
      ap₂ (λ (x : UploadRow) (xs : List UploadRow). x ∷ xs) (one r) (modify-marked rs)
    where
      one :
          (r : UploadRow)
          → (let m = if verifies id subject digest now r then verified_row now r else r in
              if verifies id subject digest later m then verified_row later m else m)
            ≡ (if verifies id subject digest now r then verified_row now r else r)
      one r = elim (Bool-cases (verifies id subject digest now r)) [
        | inl hit ↦ elim (Bool-cases (verifies id subject digest later r)) [
          | inl still ↦ rw (hit, marked_passes r hit, still) (marked_twice r)
          | inr over ↦ rw (hit, marked_passes r hit, over) refl
        ]
        | inr other ↦ elim (Bool-cases (verifies id subject digest later r)) [
          | inl still ↦ absurd (ground (arith, earlier r still, other))
          | inr over ↦ rw (other, over) refl
        ]
      ]

  count_of_any :
      (rows : List UploadRow)
      → any (verifies id subject digest later) rows ≡ true
      → 1 ≤ count_where (verifies id subject digest later) rows
  count_of_any [] h = cc
  count_of_any (r ∷ rs) h = elim (Bool-cases (verifies id subject digest later r)) [
    | inl hit ↦ rw hit (omega arith)
    | inr other ↦ rw other (count_of_any rs (rw other at h))
  ]

  pub count-still :
      (rows : List UploadRow)
      → any (verifies id subject digest later) rows ≡ true
      → count_where (verifies id subject digest now) rows ≡ 1
      → count_where (verifies id subject digest later) rows ≡ 1
  count-still rows h one = omega (arith, count_of_any rows h, count-later rows, one)

-- An open upload of this identifier and owner that has not expired, with this digest.
pub record IsProven (id : Uuid) (subject : Option VerifiedSubject) (digest : Text) (now : ℕ)
    (row : UploadRow) : Type 0 where
  pub named : row.id ≡ id
  pub owned : row.applicant_subject ≡ subject_text subject
  pub current : now < row.expires_at
  pub open_row : (row.status ≡ "pending") ⊎ ((row.status ≡ "uploaded") ⊎ (row.status ≡ "verified"))
  pub proved : row.content_sha256 ≡ digest

verifies-IsProven :
    (id : Uuid) (subject : Option VerifiedSubject) (digest : Text) (now : ℕ) (row : UploadRow)
    → verifies id subject digest now row ≡ true
    → IsProven id subject digest now row
verifies-IsProven id subject digest now row h = record {
  named = ground arith;
  owned = ground (arith, option_eq_iff row.applicant_subject (subject_text subject));
  current = ground arith;
  open_row = ground (
    arith,
    String-Eq.decides row.status "pending",
    String-Eq.decides row.status "uploaded",
    String-Eq.decides row.status "verified",
  );
  proved = ground (arith, text_eq_iff row.content_sha256 digest);
}

module _ (self : WriteContext) (upload_id : Uuid) (subject : Option VerifiedSubject) where
  -- A verification that succeeded has found exactly one upload, an open one of this identifier and
  -- owner that has not expired and has the observed digest. Repeated on a call that works, with a
  -- clock that has not gone back, while that upload has not expired and with no change of the
  -- database in between, it succeeds again and changes nothing: the times of the first verification
  -- stay.
  pub verify_upload_again :
      (digest : Text) (s t : Session) {s' : Session}
      → verify_upload self upload_id subject digest s ≡ (ok tt, s')
      → t.db ≡ s'.db
      → self.timestamp s.calls ≤ self.timestamp t.calls
      → any (verifies upload_id subject digest (self.timestamp t.calls)) s.db.uploads ≡ true
      → self.outcome t.calls ≡ fine
      → (count_where (verifies upload_id subject digest (self.timestamp s.calls)) s.db.uploads ≡ 1)
        × Several (IsProven upload_id subject digest (self.timestamp s.calls)) 1 s.db.uploads
        × ((verify_upload self upload_id subject digest t).0 ≡ ok tt)
        × ((verify_upload self upload_id subject digest t).1.db ≡ t.db)
  unfolding verify_upload statement
  verify_upload_again digest s t {s'} h kept order still works =
      let now = self.timestamp s.calls in
      let later = self.timestamp t.calls in
      let (valid, one, after) = verify_upload-eq-ok self upload_id subject digest s h in
      let rows : t.db.uploads
          ≡ modify_where (verifies upload_id subject digest now) (verified_row now) s.db.uploads =
        ap (λ d. d.uploads) (kept ∙ after) in
      let again : count_where (verifies upload_id subject digest later) t.db.uploads ≡ 1 = rw rows (
        count-marked upload_id subject digest now later order s.db.uploads
        ∙ count-still upload_id subject digest now later order s.db.uploads still one) in
      let same : modify_where (verifies upload_id subject digest later) (verified_row later)
            t.db.uploads
          ≡ t.db.uploads =
        rw rows (modify-marked upload_id subject digest now later order s.db.uploads) in
      let run = verify_upload self upload_id subject digest t in
      let answer : run.0 ≡ ok tt = ground (arith, valid, works, again) in
      let (_, _, second) =
        verify_upload-eq-ok self upload_id subject digest t {s' = run.1} (λ i. (answer i, run.1)) in
      let proven =
        Several-count (IsProven upload_id subject digest now)
          (verifies upload_id subject digest now) (verifies-IsProven upload_id subject digest now)
          s.db.uploads in
      (
        one,
        subst (λ n. Several (IsProven upload_id subject digest now) n s.db.uploads) one proven,
        answer,
        second ∙ (λ i. record t.db { uploads = same i }),
      )
