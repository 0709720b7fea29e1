-- ===== src/Persistence/Uploads/Recorded.antt =====
-- The contract of a reserved upload: `store_upload_intent` of src/persistence.rs.
use hhm_api_server_rs.Common.{
  ℕ, ◌+◌, ℤ, ◌≡◌, refl, sym, ap, ◌∙◌, ◌⊎◌, inl, inr, Bool, true, false, Option, none, some, ◌∷◌,
  Text, arith, text_eq_iff, slice_to, Option-cases,
}
use hhm_api_server_rs.Common.Result.{
  Result, ok, err, panic, map_err, pure, lift, ◌>>=◌, ◌>>◌, >>=-eq-ok, >>=-intro, lift-eq-ok,
  pure-eq-ok,
}
use hhm_api_server_rs.Persistence.Error.{DataError, validation}
use hhm_api_server_rs.Persistence.Kinds.{PersistenceTarget, upload}
use hhm_api_server_rs.Persistence.Context.{SubmissionContext}
use hhm_api_server_rs.Persistence.Inputs.{Contract, UploadIntentCreate}
use hhm_api_server_rs.Persistence.Rows.{UploadRow, Db}
use hhm_api_server_rs.Persistence.Session.{
  WriteContext, Session, Command, query_one, tick, in_transaction,
}
use hhm_api_server_rs.Persistence.Session.Laws.{in_transaction-eq-ok, in_transaction_db}
use hhm_api_server_rs.Persistence.Submit.{maybe_insert_outbox}
use hhm_api_server_rs.Persistence.Submit.Recorded.{entered, outbox_of_new, outbox_of_replay}
use hhm_api_server_rs.Persistence.Uploads.{
  StoredUpload, find_upload, insert_upload, replay_upload, object_key, upload_row, upload_lifetime,
  to_i64, or_panic, store_upload_intent,
}

abbrev pub upload_of : UploadRow → Bool → StoredUpload
upload_of row replayed = record {
  id = row.id;
  object_key = row.object_key;
  expires_at = row.expires_at;
  replayed = replayed;
}

-- A new row under a new key, with its outbox entry, or the row that holds the key already, which
-- must hold the same payload, and no change.
pub data Reserved (self : WriteContext) (target : PersistenceTarget) (context : SubmissionContext)
    (row : UploadRow) (db : Db) (stored : StoredUpload) (db' : Db) : Type 0 where
  created :
      (m : ℕ)
      → find_upload context.idempotency_key db.uploads ≡ none
      → stored ≡ upload_of row false
      → db'
        ≡ entered self target upload m stored.id context.payload_sha256
            (record db { uploads = row ∷ db.uploads })
      → Reserved self target context row db stored db'
  replayed :
      (r : UploadRow)
      → find_upload context.idempotency_key db.uploads ≡ some r
      → r.payload_sha256 ≡ context.payload_sha256
      → stored ≡ upload_of r true
      → db' ≡ db
      → Reserved self target context row db stored db'

module _ (self : WriteContext) (context : SubmissionContext) where
  replay-eq-ok :
      (s : Session) {stored : StoredUpload} {s' : Session} {r : UploadRow}
      → find_upload context.idempotency_key s.db.uploads ≡ some r
      → replay_upload self context none s ≡ (ok stored, s')
      → (r.payload_sha256 ≡ context.payload_sha256) × (stored ≡ upload_of r true) × (s'.db ≡ s.db)
  unfolding replay_upload query_one
  replay-eq-ok s {r} found h = ground (arith, text_eq_iff r.payload_sha256 context.payload_sha256)

  module _ (row : UploadRow) (keyed : row.idempotency_key ≡ context.idempotency_key) where
    -- The insertion and what follows it, up to the outbox.
    abbrev pub insert_step : Command StoredUpload
    insert_step = do
      inserted ← query_one self (λ n db.
          let result = insert_upload row db.uploads in (result.0, record db { uploads = result.1 }))
      replay_upload self context inserted

    step_fresh :
        (s : Session) {stored : StoredUpload} {s' : Session}
        → find_upload context.idempotency_key s.db.uploads ≡ none
        → insert_step s ≡ (ok stored, s')
        → (stored ≡ upload_of row false) × (s'.db ≡ record s.db { uploads = row ∷ s.db.uploads })
    unfolding insert_upload replay_upload query_one
    step_fresh s missing h =
        let absent : find_upload row.idempotency_key s.db.uploads ≡ none = rw keyed missing in
        ground arith

    step_again :
        (s : Session) {stored : StoredUpload} {s' : Session} {r : UploadRow}
        → find_upload context.idempotency_key s.db.uploads ≡ some r
        → insert_step s ≡ (ok stored, s')
        → (r.payload_sha256 ≡ context.payload_sha256) × (stored ≡ upload_of r true) × (s'.db ≡ s.db)
    unfolding insert_upload query_one
    step_again s {stored} {s'} {r} found h =
        let present : find_upload row.idempotency_key s.db.uploads ≡ some r = rw keyed found in
        ground (
          arith,
          replay-eq-ok (record { db = s.db; calls = s.calls + 1 }) {stored = stored} {s' = s'}
              {r = r} found,
        )

    module _ (target : PersistenceTarget) (s : Session) {stored : StoredUpload} {s' : Session}
        (found : StoredUpload) (t : Session) (inserted : insert_step s ≡ (ok found, t))
        (entry : maybe_insert_outbox self target upload
            (record { id = found.id; accepted_at = found.expires_at; replayed = found.replayed })
            context
            t
          ≡ (ok tt, s'))
        (e : found ≡ stored) where
      reserved_fresh :
          find_upload context.idempotency_key s.db.uploads ≡ none
          → Reserved self target context row s.db stored s'.db
      reserved_fresh missing =
          let (is, db) = step_fresh s missing inserted in
          let after =
            outbox_of_new self upload context target _ t (ap (λ x. x.replayed) is) entry in
          created t.calls missing (sym e ∙ is) (rw (← e, ← db) after)

      reserved_again :
          (r : UploadRow)
          → find_upload context.idempotency_key s.db.uploads ≡ some r
          → Reserved self target context row s.db stored s'.db
      reserved_again r there =
          let (paid, is, db) = step_again s there inserted in
          let after =
            outbox_of_replay self upload context target _ t (ap (λ x. x.replayed) is) entry in
          replayed r there paid (sym e ∙ is) (after ∙ db)

      reserved : Reserved self target context row s.db stored s'.db
      reserved = elim (Option-cases (find_upload context.idempotency_key s.db.uploads)) [
        | inl missing ↦ reserved_fresh missing
        | inr (r, there) ↦ reserved_again r there
      ]

module _ (contract : Contract) (self : WriteContext) (target : PersistenceTarget)
    (context : SubmissionContext) (input : UploadIntentCreate) (now : ℕ) where
  -- The row of an intent whose digest has the prefix and whose size is known.
  abbrev pub intent_row : Text → ℤ → UploadRow
  intent_row prefix size =
      upload_row contract self target context input
        (object_key contract self target context input prefix) (now + upload_lifetime) size

  -- An intent that was reserved: the digest has a prefix of sixteen bytes, and the size fits.
  pub record IsReserved (db : Db) (stored : StoredUpload) (db' : Db) : Type 0 where
    pub prefix : Text
    pub size : ℤ
    pub sliced : slice_to input.sha256 16 ≡ some prefix
    pub sized : to_i64 input.size_bytes ≡ ok size
    pub reserved : Reserved self target context (intent_row prefix size) db stored db'

  abbrev intent_body : Command StoredUpload
  intent_body = do
    prefix ← lift (or_panic (slice_to input.sha256 16))
    size ← lift (to_i64 input.size_bytes)
    inserted ← query_one self (λ n db.
        let result = insert_upload (intent_row prefix size) db.uploads in
        (result.0, record db { uploads = result.1 }))
    stored ← replay_upload self context inserted
    maybe_insert_outbox self target upload
        (record { id = stored.id; accepted_at = stored.expires_at; replayed = stored.replayed })
        context
    pure stored

  or_panic-eq-ok : (o : Option Text) {t : Text} → or_panic o ≡ ok t → o ≡ some t
  or_panic-eq-ok o h = ground arith

  intent_body-IsReserved :
      (s : Session) {stored : StoredUpload} {s' : Session}
      → intent_body s ≡ (ok stored, s')
      → IsReserved s.db stored s'.db
  intent_body-IsReserved s {stored} {s'} h =
      let (prefix, sliced, h1) = lift-eq-ok (or_panic (slice_to input.sha256 16)) _ s h in
      let (size, sized, h2) = lift-eq-ok (to_i64 input.size_bytes) _ s h1 in
      let (i, t, query, h3) = >>=-eq-ok (query_one self _) _ s h2 in
      let (found, u, replay, h4) = >>=-eq-ok (replay_upload self context i) _ t h3 in
      let (_, v, entry, h5) = >>=-eq-ok (maybe_insert_outbox self target upload _ context) _ u h4 in
      let (same, last) = pure-eq-ok h5 in
      record {
        prefix = prefix;
        size = size;
        sliced = or_panic-eq-ok (slice_to input.sha256 16) sliced;
        sized = sized;
        reserved =
            reserved self context (intent_row prefix size) refl target s {s' = s'} found u
              (>>=-intro (query_one self _) (replay_upload self context) s query replay)
              (entry ∙ (λ i. (ok tt, last i))) same;
      }

  -- A reserved upload that was returned: a row under the key, whose digest prefix names the object
  -- and whose lifetime starts at the reservation, or the row of an earlier reservation with the
  -- same payload; in the primary a new row has its outbox entry.
  pub store_upload_intent_returned :
      (s : Session) {stored : StoredUpload} {s' : Session}
      → store_upload_intent contract self target context input now s ≡ (ok stored, s')
      → IsReserved s.db stored s'.db
  unfolding store_upload_intent
  store_upload_intent_returned s {stored} h =
      let (_, _, rest) =
        lift-eq-ok (map_err validation (contract.validate_upload_intent input)) _ s h in
      let (ended, db) = in_transaction-eq-ok self (λ tx. intent_body) s rest in
      rw db (intent_body-IsReserved (tick s) (λ i. (ended i, (intent_body (tick s)).1)))

  checked_intent :
      (check : Result DataError (Unit {0})) (s : Session)
      → (((lift check >> in_transaction self (λ tx. intent_body)) s).1.db ≡ s.db)
        ⊎ ((stored : StoredUpload) × IsReserved s.db stored
              ((lift check >> in_transaction self (λ tx. intent_body)) s).1.db)
  checked_intent (ok a) s =
      in_transaction_db self (λ tx. intent_body) s
        (λ db. (db ≡ s.db) ⊎ ((stored : StoredUpload) × IsReserved s.db stored db)) (inl refl)
        (λ stored e.
          inr (stored, intent_body-IsReserved (tick s) (λ i. (e i, (intent_body (tick s)).1))))
  checked_intent (err e) s = inl refl
  checked_intent panic s = inl refl

  -- Whatever calls fail, and also if the digest cannot be sliced, the database is unchanged or has
  -- exactly the effect of a reservation.
  pub store_upload_intent_atomic :
      (s : Session)
      → ((store_upload_intent contract self target context input now s).1.db ≡ s.db)
        ⊎ ((stored : StoredUpload) × IsReserved s.db stored
              (store_upload_intent contract self target context input now s).1.db)
  unfolding store_upload_intent
  store_upload_intent_atomic s =
      checked_intent (map_err validation (contract.validate_upload_intent input)) s
