-- ===== src/Tests/Handlers.antt =====
-- Runs of the submission handlers of src/api.rs.
use hhm_api_server_rs.Common.{ℕ, ℤ, ◌≡◌, refl, ◌⊎◌}
use hhm_api_server_rs.Common.Result.{ok, err}
use hhm_api_server_rs.Hex.{lower_hex}
use hhm_api_server_rs.Persistence.Error.{DataError}
use hhm_api_server_rs.Persistence.Kinds
use hhm_api_server_rs.Persistence.Kinds.{PersistenceTarget}
use hhm_api_server_rs.Persistence.Context.{
  SubmissionContext, VerifiedSubject, from_verified_claim, new_context,
}
use hhm_api_server_rs.Persistence.Rows.{pre_interest_table, application_table, referral_table}
use hhm_api_server_rs.Persistence.Session.{Command, in_transaction, query_one, statement}
use hhm_api_server_rs.Persistence.Submit.{
  StoredSubmission, insert_or_replay, replay_submission, stored_from_row, require_same_payload,
  insert_row, maybe_insert_outbox, store_pre_interest, store_referral,
}
use hhm_api_server_rs.Persistence.Application.{require_verified_uploads, store_application, to_i16}
use hhm_api_server_rs.Persistence.Outbox.{
  update_status, update_submission, update_entry, mark_mirrored, record_mirror_failure,
}
use hhm_api_server_rs.Auth.{
  bearer_token, has_scope, authorize_introspection, bounded_response, verify_response, verify,
  optional_subject, required_subject,
}
use hhm_api_server_rs.External.{verify_turnstile}
use hhm_api_server_rs.Api.Failure.{from_data, mirror_unavailable}
use hhm_api_server_rs.Api.State.{AppState, World}
use hhm_api_server_rs.Api.Request.{
  canonical_digest, canonical_digest_without_turnstile, idempotency_key, source_host,
  submission_context, authenticate_or_verify_public,
}
use hhm_api_server_rs.Api.Submissions.{
  SubmissionReceipt, connection, persist_both, settle_submission, finish_submission, record_failure,
  create_pre_interest, create_application, create_referral,
}
use hhm_api_server_rs.Api.Submissions.Accepted.{
  Accepted, Admitted, pre_interest_rows, create_pre_interest-Accepted,
}
use hhm_api_server_rs.Api.Submissions.Accepted.Application.{
  application_rows, create_application-Accepted,
}
use hhm_api_server_rs.Api.Submissions.Accepted.Referral.{
  Referred, referral_rows, create_referral-Accepted,
}
use hhm_api_server_rs.Api.Submissions.Durable.{Durable, create_pre_interest-Durable}
use hhm_api_server_rs.Api.Submissions.Durable.Application.{create_application-Durable}
use hhm_api_server_rs.Api.Submissions.Durable.Referral.{create_referral-Durable}
use hhm_api_server_rs.Api.Submissions.Refusal.{persist_both-eq-err}
use hhm_api_server_rs.Tests.Data.{
  state, public_headers, user_headers, json, empty, with_uploads, both, context, healthy, down,
  accepting,
}
use hhm_api_server_rs.Tests.Data

abbrev receipt : Kinds.StoredSubmissionKind → ℕ → SubmissionReceipt
receipt kind at = record { submission_id = 7; kind = kind; accepted_at = at }

abbrev after_pre_interest : World
after_pre_interest =
    (create_pre_interest state public_headers 7 json Data.pre_interest (both empty)).1

pre_interest_run :
    create_pre_interest state public_headers 7 json Data.pre_interest (both empty)
    ≡ (ok (receipt Kinds.pre_interest 1), after_pre_interest)
unfolding create_pre_interest persist_both settle_submission finish_submission
    authenticate_or_verify_public optional_subject bearer_token verify_turnstile
    canonical_digest_without_turnstile submission_context idempotency_key source_host new_context
    lower_hex store_pre_interest in_transaction insert_or_replay replay_submission stored_from_row
    require_same_payload insert_row query_one statement maybe_insert_outbox mark_mirrored
    update_submission update_entry update_status
pre_interest_run = refl

create_pre_interest-Accepted_example :
    (accepting.validate_pre_interest Data.pre_interest ≡ ok tt)
    × ((c : SubmissionContext) × Admitted state public_headers 7 json Data.pre_interest
          Data.pre_interest.turnstile_token c
        × Accepted state Kinds.pre_interest pre_interest_table
            (pre_interest_rows state public_headers 7 Data.pre_interest)
            c
            (both empty)
            (receipt Kinds.pre_interest 1)
            after_pre_interest)
create_pre_interest-Accepted_example =
    create_pre_interest-Accepted state public_headers 7 json Data.pre_interest (both empty)
      pre_interest_run

create_pre_interest-Durable_example :
    (c : SubmissionContext) × Admitted state public_headers 7 json Data.pre_interest
      Data.pre_interest.turnstile_token c
    × Durable Kinds.pre_interest pre_interest_table c
        (receipt Kinds.pre_interest 1)
        after_pre_interest
create_pre_interest-Durable_example =
    create_pre_interest-Durable state public_headers 7 json Data.pre_interest (both empty)
      pre_interest_run

abbrev after_application : World
after_application =
    (create_application state public_headers 7 json Data.application (both with_uploads)).1

application_run :
    create_application state public_headers 7 json Data.application (both with_uploads)
    ≡ (ok (receipt Kinds.application 2), after_application)
unfolding create_application persist_both settle_submission finish_submission
    authenticate_or_verify_public optional_subject bearer_token verify_turnstile
    canonical_digest_without_turnstile submission_context idempotency_key source_host new_context
    lower_hex store_application require_verified_uploads in_transaction insert_or_replay
    replay_submission stored_from_row require_same_payload insert_row query_one statement
    maybe_insert_outbox mark_mirrored update_submission update_entry update_status
application_run = refl

create_application-Accepted_example :
    (accepting.validate_application Data.application ≡ ok tt)
    × ((c : SubmissionContext) × (occupancy : ℤ) × (to_i16 Data.application.preferred_room_occupancy
          ≡ ok occupancy)
        × Admitted state public_headers 7 json Data.application Data.application.turnstile_token c
        × Accepted state Kinds.application application_table
            (application_rows state public_headers 7 Data.application occupancy)
            c
            (both with_uploads)
            (receipt Kinds.application 2)
            after_application)
create_application-Accepted_example =
    create_application-Accepted state public_headers 7 json Data.application (both with_uploads)
      application_run

abbrev after_referral : World
after_referral = (create_referral state user_headers 7 json Data.referral (both empty)).1

referral_run :
    create_referral state user_headers 7 json Data.referral (both empty)
    ≡ (ok (receipt Kinds.referral 1), after_referral)
unfolding create_referral persist_both settle_submission finish_submission required_subject
    bearer_token verify verify_response bounded_response authorize_introspection has_scope
    from_verified_claim canonical_digest idempotency_key source_host new_context lower_hex
    store_referral in_transaction insert_or_replay replay_submission stored_from_row
    require_same_payload insert_row query_one statement maybe_insert_outbox mark_mirrored
    update_submission update_entry update_status
referral_run = refl

create_referral-Accepted_example :
    (accepting.validate_referral Data.referral ≡ ok tt)
    × ((subject : VerifiedSubject) × (c : SubmissionContext) × Referred state user_headers 7 json
          Data.referral subject c
        × Accepted state Kinds.referral referral_table
            (referral_rows state user_headers 7 Data.referral subject.as_str)
            c
            (both empty)
            (receipt Kinds.referral 1)
            after_referral)
create_referral-Accepted_example =
    create_referral-Accepted state user_headers 7 json Data.referral (both empty) referral_run

-- The mirror is down.
abbrev half : AppState
half = record state { supabase = down }

abbrev store_half : PersistenceTarget → SubmissionContext → Command StoredSubmission
store_half target ctx =
    store_pre_interest accepting (connection half target) target ctx Data.pre_interest

half_run :
    (persist_both half Kinds.pre_interest context store_half (both empty)).0
    ≡ err (mirror_unavailable 7)
unfolding persist_both settle_submission record_failure record_mirror_failure store_pre_interest
    in_transaction insert_or_replay replay_submission stored_from_row require_same_payload
    insert_row query_one statement maybe_insert_outbox
half_run = refl

persist_both-eq-err_example :
    ((d : DataError) × ((store_half Kinds.primary context empty).0 ≡ err d)
      × (mirror_unavailable 7 ≡ from_data d)
      × ((persist_both half Kinds.pre_interest context store_half (both empty)).1.supabase ≡ empty))
    ⊎ ((stored : StoredSubmission) × ((store_half Kinds.primary context empty).0 ≡ ok stored)
        × (mirror_unavailable 7 ≡ mirror_unavailable stored.id))
persist_both-eq-err_example =
    persist_both-eq-err half Kinds.pre_interest context store_half (both empty) half_run

create_application-Durable_example :
    (c : SubmissionContext) × Admitted state public_headers 7 json Data.application
      Data.application.turnstile_token c
    × Durable Kinds.application application_table c (receipt Kinds.application 2) after_application
create_application-Durable_example =
    create_application-Durable state public_headers 7 json Data.application (both with_uploads)
      application_run

create_referral-Durable_example :
    (subject : VerifiedSubject) × (c : SubmissionContext) × Referred state user_headers 7 json
      Data.referral subject c
    × Durable Kinds.referral referral_table c (receipt Kinds.referral 1) after_referral
create_referral-Durable_example =
    create_referral-Durable state user_headers 7 json Data.referral (both empty) referral_run
