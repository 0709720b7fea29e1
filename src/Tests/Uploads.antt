-- ===== src/Tests/Uploads.antt =====
-- Runs of the upload handlers and of the checks of a stored object.
use hhm_api_server_rs.Common.{arith, count_where, [], ◌∷◌, ◌==◌, Text-Eq, if◌then◌else◌}
use hhm_api_server_rs.Persistence.Kinds.{resume}
use hhm_api_server_rs.Persistence.Context.{SubmissionContext, new_context}
use hhm_api_server_rs.Persistence.Outbox.{
  update_status, update_submission, update_entry, mark_mirrored,
}
use hhm_api_server_rs.Http.{Outside}
use hhm_api_server_rs.External.{create_signed_upload_url}
use hhm_api_server_rs.Api.State.{AppState}
use hhm_api_server_rs.Api.Request.{
  canonical_digest_without_turnstile, idempotency_key, source_host, submission_context,
}
use hhm_api_server_rs.Api.Submissions.Accepted.{Admitted}
use hhm_api_server_rs.Api.UploadHandlers.{
  UploadIntentReceipt, allowed_content_types, finish_upload, settle_upload, persist_upload,
  create_upload_intent,
}
use hhm_api_server_rs.Api.UploadHandlers.Reserved.{Reserving, create_upload_intent-Reserving}
use hhm_api_server_rs.Tests.Data.{json}
use hhm_api_server_rs.Common.{false, ◌≡◌, ◌≤◌, refl, ◌⊎◌, none, some, codes, ◌++◌}
use hhm_api_server_rs.Common.Result.{ok}
use hhm_api_server_rs.Hex.{lower_hex}
use hhm_api_server_rs.Http.{Url, Response}
use hhm_api_server_rs.Persistence.Kinds.{primary}
use hhm_api_server_rs.Persistence.Context.{Uuid}
use hhm_api_server_rs.Persistence.Session.{Session, statement, in_transaction, query_one}
use hhm_api_server_rs.Persistence.Uploads.{
  object_key, StoredUpload, PendingUpload, verify_upload, verifies, store_upload_intent,
  insert_upload, upload_from_row, same_upload_payload, replay_upload,
}
use hhm_api_server_rs.Persistence.Uploads.Recorded.{
  IsReserved, store_upload_intent_returned, store_upload_intent_atomic,
}
use hhm_api_server_rs.Persistence.Uploads.Again.{IsProven, verify_upload_again}
use hhm_api_server_rs.Common.Several.{Several}
use hhm_api_server_rs.Persistence.Submit.{maybe_insert_outbox}
use hhm_api_server_rs.Auth.{optional_subject, bearer_token}
use hhm_api_server_rs.External.{
  verify_turnstile, validate_object_key, stream_object, verify_download, verify_object,
  max_upload_bytes,
}
use hhm_api_server_rs.External.Laws.{IsPromised, verify_object-eq-ok}
use hhm_api_server_rs.Api.State.{World}
use hhm_api_server_rs.Api.Request.{authenticate_or_verify_public}
use hhm_api_server_rs.Api.UploadHandlers.{complete_upload}
use hhm_api_server_rs.Api.UploadHandlers.Completed.{Completed}
use hhm_api_server_rs.Tests.Data.{
  state, public_headers, empty, with_pending, both, context, healthy, accepting, services, page,
  digest_text, completion, intent,
}

abbrev five : Uuid
five = 5

abbrev after_completion : World
after_completion = (complete_upload state public_headers five completion (both with_pending)).1

abbrev promised : PendingUpload
promised = record {
  id = 5;
  object_key = codes "pending/0/x";
  expected_sha256 = digest_text;
  content_type = codes "application/pdf";
  size_bytes = 3;
  expires_at = 1000;
}

object_run : verify_object services page promised ≡ ok tt
unfolding verify_object validate_object_key verify_download stream_object lower_hex
object_run = refl

verify_object-eq-ok_example :
    (validate_object_key promised.object_key ≡ ok tt)
    × (promised.size_bytes ≤ max_upload_bytes)
    × ((base : Url) × (endpoint : Url) × (response : Response) × (services.join_url page
            (codes "storage/v1/")
          ≡ some base)
        × (services.join_url base
              (codes "object/authenticated/hhm-intake-private/" ++ promised.object_key)
            ≡ some endpoint)
        × (services.download endpoint ≡ some response)
        × IsPromised services page promised response)
verify_object-eq-ok_example = verify_object-eq-ok services page promised object_run

abbrev reserved : StoredUpload
reserved = record {
  id = 7;
  object_key = object_key accepting healthy primary context intent (codes "0000000000000000");
  expires_at = 7210;
  replayed = false;
}

abbrev after_intent : Session
after_intent = (store_upload_intent accepting healthy primary context intent 10 empty).1

intent_run :
    store_upload_intent accepting healthy primary context intent 10 empty
    ≡ (ok reserved, after_intent)
unfolding store_upload_intent in_transaction query_one insert_upload replay_upload upload_from_row
    same_upload_payload maybe_insert_outbox statement
intent_run = refl

store_upload_intent_returned_example :
    IsReserved accepting healthy primary context intent 10 empty.db reserved after_intent.db
store_upload_intent_returned_example =
    store_upload_intent_returned accepting healthy primary context intent 10 empty intent_run

store_upload_intent_atomic_example :
    (after_intent.db ≡ empty.db)
    ⊎ ((stored : StoredUpload) × IsReserved accepting healthy primary context intent 10 empty.db
          stored after_intent.db)
store_upload_intent_atomic_example =
    store_upload_intent_atomic accepting healthy primary context intent 10 empty

abbrev after_verify : Session
after_verify = (verify_upload healthy five none digest_text with_pending).1

verify_run : verify_upload healthy five none digest_text with_pending ≡ (ok tt, after_verify)
unfolding verify_upload statement
verify_run = refl

verify_upload_again_example :
    (count_where (verifies five none digest_text 0) with_pending.db.uploads ≡ 1)
    × Several (IsProven five none digest_text 0) 1 with_pending.db.uploads
    × ((verify_upload healthy five none digest_text after_verify).0 ≡ ok tt)
    × ((verify_upload healthy five none digest_text after_verify).1.db ≡ after_verify.db)
unfolding verify_upload statement
verify_upload_again_example =
    verify_upload_again healthy five none digest_text with_pending after_verify verify_run refl
      (omega arith) refl refl

-- The services, with an address that Storage has signed behind every text that is parsed.
abbrev signed_page : Url
signed_page = record page {
  path = codes "/storage/v1/object/upload/sign/x";
  query_keys = codes "token" ∷ [];
}

abbrev signing : Outside
signing = record services {
  parse_url = λ text. if text == codes "https://hhaus.org" then some page else some signed_page;
}

abbrev signing_state : AppState
signing_state = record state { outside = signing }

abbrev after_upload : World
after_upload =
    (create_upload_intent signing_state public_headers 7 10 11 100 json intent (both empty)).1

abbrev upload_receipt : UploadIntentReceipt
upload_receipt = record {
  upload_id = 7;
  kind = resume;
  upload_url = signed_page;
  expires_at = 7210;
  maximum_bytes = 100;
  allowed_types = allowed_content_types resume;
}

upload_run :
    create_upload_intent signing_state public_headers 7 10 11 100 json intent (both empty)
    ≡ (ok upload_receipt, after_upload)
unfolding create_upload_intent persist_upload settle_upload finish_upload
    authenticate_or_verify_public optional_subject bearer_token verify_turnstile
    canonical_digest_without_turnstile submission_context idempotency_key source_host new_context
    lower_hex store_upload_intent in_transaction query_one insert_upload replay_upload
    upload_from_row same_upload_payload maybe_insert_outbox statement mark_mirrored
    update_submission update_entry update_status create_signed_upload_url validate_object_key
upload_run = refl

create_upload_intent-Reserving_example :
    (accepting.validate_upload_intent intent ≡ ok tt)
    × ((c : SubmissionContext) × Admitted signing_state public_headers 7 json intent
          intent.turnstile_token c
        × Reserving signing_state public_headers 10 11 100 c intent
            (both empty)
            upload_receipt
            after_upload)
create_upload_intent-Reserving_example =
    create_upload_intent-Reserving signing_state public_headers 7 10 11 100 json intent (both empty)
      upload_run
