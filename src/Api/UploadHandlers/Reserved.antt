-- ===== src/Api/UploadHandlers/Reserved.antt =====
-- src/api.rs: what a receipt of `create_upload_intent` says of the two databases.
use hhm_api_server_rs.Common.{ℕ, ◌≡◌, sym, ap, ◌∙◌, Option, some, Text-Eq, ℕ-Eq, arith, Bool-cases}
use hhm_api_server_rs.Common.Result.{ok, map_err, map_err-eq-ok, ◌>>=◌, lift-eq-ok, pure-eq-ok}
use hhm_api_server_rs.Http.{HeaderMap}
use hhm_api_server_rs.Persistence.Kinds.{primary, supabase_mirror, upload}
use hhm_api_server_rs.Persistence.Context.{Uuid, SubmissionContext, with_canonical_id}
use hhm_api_server_rs.Persistence.Inputs.{UploadIntentCreate}
use hhm_api_server_rs.Persistence.Rows.{Db}
use hhm_api_server_rs.Persistence.Uploads.{StoredUpload, store_upload_intent}
use hhm_api_server_rs.Persistence.Uploads.Recorded.{IsReserved, store_upload_intent_returned}
use hhm_api_server_rs.Persistence.Outbox.{mark_mirrored}
use hhm_api_server_rs.Persistence.Outbox.Laws.{Acknowledges, mark_mirrored-eq-ok}
use hhm_api_server_rs.External.{create_signed_upload_url}
use hhm_api_server_rs.Api.Failure.{invalid_request, mirror_unavailable, from_data, from_external}
use hhm_api_server_rs.Api.State.{AppState, World, on_supabase, attempt}
use hhm_api_server_rs.Api.Request.{
  Json, canonical_digest_without_turnstile, submission_context, authenticate_or_verify_public,
}
use hhm_api_server_rs.Api.Submissions.Receipt.{on_primary-eq-ok, attempt-eq-ok}
use hhm_api_server_rs.Api.Submissions.Accepted.{Admitted}
use hhm_api_server_rs.Api.UploadHandlers.{
  UploadIntentReceipt, allowed_content_types, mirrored_upload, finish_upload, settle_upload,
  persist_upload, create_upload_intent,
}

module _ (state : AppState) (headers : HeaderMap) (now mirror_now maximum : ℕ)
    (context : SubmissionContext) (input : UploadIntentCreate) where
  -- Both databases reserved the upload under one identifier, the primary marked one entry, and the
  -- address in the receipt was signed for the object key of the primary.
  pub record Reserving (w : World) (receipt : UploadIntentReceipt) (w' : World) : Type 0 where
    pub stored : StoredUpload
    pub mirrored : StoredUpload
    pub between : Db
    pub in_primary :
        IsReserved state.contract state.primary primary context input now w.primary.db stored
          between
    pub in_mirror :
        IsReserved state.contract state.supabase supabase_mirror
          (with_canonical_id context stored.id)
          input
          mirror_now
          w.supabase.db
          mirrored
          w'.supabase.db
    pub one_id : mirrored.id ≡ stored.id
    pub settled :
        Acknowledges state.primary upload stored.id context.payload_sha256 between w'.primary.db
    pub signed :
        create_signed_upload_url state.outside state.project_url stored.object_key
        ≡ ok receipt.upload_url
    pub is : receipt ≡ record {
      upload_id = stored.id;
      kind = input.kind;
      upload_url = receipt.upload_url;
      expires_at = stored.expires_at;
      maximum_bytes = maximum;
      allowed_types = allowed_content_types input.kind;
    }

  settle_upload-eq-ok :
      (stored : StoredUpload) (o : Option StoredUpload) (w : World) {receipt : UploadIntentReceipt}
      {w' : World}
      → settle_upload state headers maximum context input stored o w ≡ (ok receipt, w')
      → (m : StoredUpload) × (o ≡ some m)
        × (m.id ≡ stored.id)
        × (finish_upload state headers maximum context input stored w ≡ (ok receipt, w'))
  unfolding settle_upload
  settle_upload-eq-ok stored o w h = ground (arith, Bool-cases (mirrored_upload stored.id o))

  finish_upload-eq-ok :
      (stored : StoredUpload) (w : World) {receipt : UploadIntentReceipt} {w' : World}
      → finish_upload state headers maximum context input stored w ≡ (ok receipt, w')
      → (mark_mirrored state.primary upload stored.id context.payload_sha256 w.primary
          ≡ (ok tt, w'.primary))
        × (w'.supabase ≡ w.supabase)
        × (create_signed_upload_url state.outside state.project_url stored.object_key
            ≡ ok receipt.upload_url)
        × (receipt ≡ record {
          upload_id = stored.id;
          kind = input.kind;
          upload_url = receipt.upload_url;
          expires_at = stored.expires_at;
          maximum_bytes = maximum;
          allowed_types = allowed_content_types input.kind;
        })
  unfolding finish_upload
  finish_upload-eq-ok stored w {receipt} h =
      let sign = create_signed_upload_url state.outside state.project_url stored.object_key in
      let (_, marked, h1) =
        on_primary-eq-ok (λ _. mirror_unavailable stored.id)
          (mark_mirrored state.primary upload stored.id context.payload_sha256) _ w h in
      let (url, signed, last) = lift-eq-ok (map_err from_external sign) _ _ h1 in
      let (same, after) = pure-eq-ok last in
      (
        marked ∙ (λ i. (ok tt, (after i).primary)),
        ap (λ x. x.supabase) (sym after),
        map_err-eq-ok from_external sign signed
            ∙ ap (λ (r : UploadIntentReceipt). ok r.upload_url) same,
        sym same ∙ (λ i. record {
          upload_id = stored.id;
          kind = input.kind;
          upload_url = (same i).upload_url;
          expires_at = stored.expires_at;
          maximum_bytes = maximum;
          allowed_types = allowed_content_types input.kind;
        }),
      )

  persist_upload-Reserving :
      (w : World) {receipt : UploadIntentReceipt} {w' : World}
      → persist_upload state headers now mirror_now maximum context input w ≡ (ok receipt, w')
      → Reserving w receipt w'
  unfolding persist_upload
  persist_upload-Reserving w h =
      let first = store_upload_intent state.contract state.primary primary context input now in
      let mirror = λ (stored : StoredUpload).
        store_upload_intent state.contract state.supabase supabase_mirror
          (with_canonical_id context stored.id) input mirror_now in
      let settle = settle_upload state headers maximum context input in
      let (stored, one, h1) =
        on_primary-eq-ok from_data first
          (λ stored. attempt (on_supabase (mirror stored)) >>= settle stored) w h in
      let (o, two, h2) = attempt-eq-ok (mirror stored) (settle stored) _ h1 in
      let (m, there, same, last) = settle_upload-eq-ok stored o _ h2 in
      let (marked, kept, signed, is) = finish_upload-eq-ok stored _ last in
      let two' = two m there ∙ (λ i. (ok m, sym kept i)) in
      record {
        stored = stored;
        mirrored = m;
        between = (first w.primary).1.db;
        in_primary =
            store_upload_intent_returned state.contract state.primary primary context input now
              w.primary one;
        in_mirror =
            store_upload_intent_returned state.contract state.supabase supabase_mirror
              (with_canonical_id context stored.id) input mirror_now w.supabase two';
        one_id = same;
        settled =
            mark_mirrored-eq-ok state.primary upload stored.id context.payload_sha256
              (first w.primary).1 marked;
        signed = signed;
        is = is;
      }

module _ (state : AppState) (headers : HeaderMap) (fresh : Uuid) (now mirror_now maximum : ℕ) where
  -- A receipt for an upload intent: the body was valid, the sender was known or passed Turnstile,
  -- the context carries the digest of the body, both databases reserved the upload under the
  -- identifier in the receipt, the primary then marked exactly one outbox entry of this upload and
  -- payload, and the address in the receipt was signed for the primary's object key.
  pub create_upload_intent-Reserving :
      (json : Json UploadIntentCreate) (input : UploadIntentCreate) (w : World)
      {receipt : UploadIntentReceipt} {w' : World}
      → create_upload_intent state headers fresh now mirror_now maximum json input w
        ≡ (ok receipt, w')
      → (state.contract.validate_upload_intent input ≡ ok tt)
        × ((context : SubmissionContext) × Admitted state headers fresh json input
              input.turnstile_token context
            × Reserving state headers now mirror_now maximum context input w receipt w')
  unfolding create_upload_intent
  create_upload_intent-Reserving json input w h =
      let (_, valid, h1) =
        lift-eq-ok (map_err (λ _. invalid_request) (state.contract.validate_upload_intent input)) _
          w h in
      let (subject, known, h2) =
        lift-eq-ok (authenticate_or_verify_public state headers input.turnstile_token) _ w h1 in
      let (digest, digested, h3) =
        lift-eq-ok (canonical_digest_without_turnstile state.outside json input) _ w h2 in
      let (context, built, h4) =
        lift-eq-ok (submission_context state.outside fresh subject headers digest) _ w h3 in
      (
        map_err-eq-ok (λ _. invalid_request) (state.contract.validate_upload_intent input) valid,
        (
          context,
          record {
            subject = subject;
            digest = digest;
            known = known;
            digested = digested;
            built = built;
          },
          persist_upload-Reserving state headers now mirror_now maximum context input w h4,
        ),
      )
