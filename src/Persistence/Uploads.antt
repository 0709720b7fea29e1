-- ===== src/Persistence/Uploads.antt =====
-- src/persistence.rs: `store_upload_intent`, `pending_upload` and `verify_upload`.
pub mod Again
pub mod Recorded
pub mod Verify
use hhm_api_server_rs.Common.{
  ℕ, ◌+◌, ◌*◌, ℤ, pos, negsuc, Bool, true, false, not, ◌&&◌, ◌||◌, Option, none, some, List, ◌∷◌,
  ◌++◌, String, Text, Text-Eq, String-Eq, ℕ-Eq, codes, slice_to, find, count_where, modify_where,
  ltb, ◌==◌, option_eq, if◌then◌else◌,
}
use hhm_api_server_rs.Common.Result.{
  Result, ok, err, panic, and_then, map_err, ok_or, pure, raise, lift, ◌>>=◌, ◌>>◌,
}
use hhm_api_server_rs.Persistence.Error.{
  DataError, validation, invalid_context, idempotency_conflict, intake_object_unavailable, decode,
  invariant,
}
use hhm_api_server_rs.Persistence.Kinds.{PersistenceTarget, upload, upload_kind}
use hhm_api_server_rs.Persistence.Context.{
  Uuid, VerifiedSubject, SubmissionContext, subject_text, valid_digest,
}
use hhm_api_server_rs.Persistence.Inputs.{Contract, UploadIntentCreate}
use hhm_api_server_rs.Persistence.Rows.{UploadRow, Db}
use hhm_api_server_rs.Persistence.Session.{
  WriteContext, Command, QueryResult, statement, query_one, read, in_transaction,
}
use hhm_api_server_rs.Persistence.Submit.{StoredSubmission, maybe_insert_outbox}

-- `UPLOAD_LIFETIME_HOURS`, in seconds.
abbrev pub upload_lifetime : ℕ
upload_lifetime = 2 * 3600

pub record StoredUpload : Type 0 where
  pub id : Uuid
  pub object_key : Text
  pub expires_at : ℕ
  pub replayed : Bool

pub record PendingUpload : Type 0 where
  pub id : Uuid
  pub object_key : Text
  pub expected_sha256 : Text
  pub content_type : Text
  pub size_bytes : ℕ
  pub expires_at : ℕ

abbrev pub find_upload : Text → List UploadRow → Option UploadRow
find_upload key rows = find (λ (r : UploadRow). r.idempotency_key == key) rows

abbrev pub insert_upload_unless :
    Option UploadRow → UploadRow → List UploadRow → Option UploadRow × List UploadRow
insert_upload_unless none row rows = (some row, row ∷ rows)
insert_upload_unless (some _) row rows = (none, rows)

-- `INSERT INTO hhm_intake_uploads … ON CONFLICT (idempotency_key) DO NOTHING RETURNING …`
unfoldable pub insert_upload : UploadRow → List UploadRow → Option UploadRow × List UploadRow
insert_upload row rows = insert_upload_unless (find_upload row.idempotency_key rows) row rows

-- `i64::try_from` of a `u64`.
abbrev pub to_i64 : ℕ → Result DataError ℤ
to_i64 n = if ltb n 9223372036854775808 then ok (pos n) else err invariant

-- `u64::try_from` of an `i64`.
abbrev pub to_u64 : ℤ → Result DataError ℕ
to_u64 (pos n) = ok n
to_u64 (negsuc n) = err decode

abbrev pub or_panic : {A : Type 0} → Option A → Result DataError A
or_panic none = panic
or_panic (some a) = ok a

module _ (self : WriteContext) where
  unfoldable pub upload_from_row : QueryResult UploadRow → Bool → Result DataError StoredUpload
  upload_from_row row replayed = and_then (read self row.call "id" row.columns.id) λ id.
      and_then (read self row.call "object_key" row.columns.object_key) λ object_key.
        and_then (read self row.call "expires_at" row.columns.expires_at) λ expires_at. ok (record {
          id = id;
          object_key = object_key;
          expires_at = expires_at;
          replayed = replayed;
        })

  unfoldable pub same_upload_payload : QueryResult UploadRow → Text → Result DataError (Unit {0})
  same_upload_payload row expected =
      and_then (read self row.call "payload_sha256" row.columns.payload_sha256)
        λ found. if found == expected then ok tt else err idempotency_conflict

  unfoldable pub replay_upload :
      SubmissionContext → Option (QueryResult UploadRow) → Command StoredUpload
  unfolding upload_from_row same_upload_payload
  replay_upload context (some row) = lift (upload_from_row row false)
  replay_upload context none = do
    found ← query_one self (λ n db. (find_upload context.idempotency_key db.uploads, db))
    row ← lift (ok_or invariant found)
    lift (same_upload_payload row context.payload_sha256)
    lift (upload_from_row row true)

module _ (contract : Contract) (self : WriteContext) (target : PersistenceTarget)
    (context : SubmissionContext) (input : UploadIntentCreate) where
  -- `intake/{kind}/{canonical id}/{first sixteen bytes of the digest}`
  abbrev pub object_key : Text → Text
  object_key prefix =
      codes "intake/"
      ++ (codes (upload_kind input.kind)
          ++ (codes "/" ++ (contract.uuid_text context.canonical_id ++ (codes "/" ++ prefix))))

  abbrev pub upload_row : Text → ℕ → ℤ → UploadRow
  upload_row key expires_at size = record {
    id = context.canonical_id;
    idempotency_key = context.idempotency_key;
    payload_sha256 = context.payload_sha256;
    applicant_subject = subject_text context.subject;
    kind = upload_kind input.kind;
    object_key = key;
    content_sha256 = input.sha256;
    content_type = input.content_type;
    size_bytes = size;
    status = "pending";
    expires_at = expires_at;
    uploaded_at = none;
    verified_at = none;
  }

  -- `now` is the time that `Utc::now` reads.
  unfoldable pub store_upload_intent : ℕ → Command StoredUpload
  store_upload_intent now = do
    lift (map_err validation (contract.validate_upload_intent input))
    in_transaction self λ tx. do
      prefix ← lift (or_panic (slice_to input.sha256 16))
      size ← lift (to_i64 input.size_bytes)
      inserted ← query_one self (λ n db.
          let row = upload_row (object_key prefix) (now + upload_lifetime) size in
          let result = insert_upload row db.uploads in (result.0, record db { uploads = result.1 }))
      stored ← replay_upload self context inserted
      maybe_insert_outbox self target upload
          (record { id = stored.id; accepted_at = stored.expires_at; replayed = stored.replayed })
          context
      pure stored

-- `status IN ('pending', 'uploaded', 'verified')`
abbrev pub open_status : String → Bool
open_status status = status == "pending" || status == "uploaded" || status == "verified"

-- The upload of this owner that has not expired at the time `now` and is still open.
abbrev pub is_live : Uuid → Option VerifiedSubject → ℕ → UploadRow → Bool
is_live id subject now row =
    row.id == id
    && option_eq row.applicant_subject (subject_text subject)
    && ltb now row.expires_at
    && open_status row.status

-- A missing time is set: `COALESCE(t, transaction_timestamp())`.
abbrev pub coalesce : Option ℕ → ℕ → Option ℕ
coalesce none now = some now
coalesce (some t) now = some t

abbrev pub verified_row : ℕ → UploadRow → UploadRow
verified_row now row = record row {
  status = "verified";
  uploaded_at = coalesce row.uploaded_at now;
  verified_at = coalesce row.verified_at now;
}

abbrev pub verifies : Uuid → Option VerifiedSubject → Text → ℕ → UploadRow → Bool
verifies id subject digest now row = is_live id subject now row && row.content_sha256 == digest

module _ (self : WriteContext) (upload_id : Uuid) (subject : Option VerifiedSubject) where
  unfoldable pub pending_from_row : QueryResult UploadRow → Result DataError PendingUpload
  pending_from_row row =
      let col = row.columns in
      and_then (read self row.call "size_bytes" col.size_bytes) λ size.
        and_then (read self row.call "id" col.id) λ id.
          and_then (read self row.call "object_key" col.object_key) λ object_key.
            and_then (read self row.call "content_sha256" col.content_sha256) λ sha256.
              and_then (read self row.call "content_type" col.content_type) λ content_type.
                and_then (to_u64 size) λ size_bytes.
                  and_then (read self row.call "expires_at" col.expires_at) λ expires_at.
                    ok (record {
                      id = id;
                      object_key = object_key;
                      expected_sha256 = sha256;
                      content_type = content_type;
                      size_bytes = size_bytes;
                      expires_at = expires_at;
                    })

  unfoldable pub pending_upload : Command PendingUpload
  pending_upload = do
    found ←
        query_one self
          (λ n db. (find (is_live upload_id subject (self.timestamp n)) db.uploads, db))
    row ← lift (ok_or intake_object_unavailable found)
    lift (pending_from_row row)

  unfoldable pub verify_upload : Text → Command (Unit {0})
  verify_upload observed_sha256 =
      if not (valid_digest observed_sha256) then raise (invalid_context "observed_sha256") else do
        rows_affected ← statement self (λ n db.
            let test = verifies upload_id subject observed_sha256 (self.timestamp n) in
            (
              count_where test db.uploads,
              record db {
                uploads = modify_where test (verified_row (self.timestamp n)) db.uploads;
              },
            ))
        if rows_affected == 1 then pure tt else raise intake_object_unavailable
