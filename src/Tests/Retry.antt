-- ===== src/Tests/Retry.antt =====
-- A pre-interest whose first attempt missed the mirror, and its repetition.
use hhm_api_server_rs.Common.{arith, ◌*◌, Text, count_where, ◌≡◌, ◌≤◌, ◌+◌, refl, inl, none, codes}
use hhm_api_server_rs.Common.Result.{ok}
use hhm_api_server_rs.Hex.{lower_hex}
use hhm_api_server_rs.Persistence.Kinds.{primary}
use hhm_api_server_rs.Persistence.Kinds
use hhm_api_server_rs.Persistence.Context.{SubmissionContext, new_context}
use hhm_api_server_rs.Persistence.Rows.{Row, PreInterestColumns}
use hhm_api_server_rs.Persistence.Session.{Session, in_transaction, query_one, statement}
use hhm_api_server_rs.Persistence.Submit.{
  insert_or_replay, replay_submission, stored_from_row, require_same_payload, insert_row,
  maybe_insert_outbox, pre_interest_row, store_pre_interest,
}
use hhm_api_server_rs.Persistence.Outbox.{
  is_entry, update_status, update_submission, update_entry, record_mirror_failure,
}
use hhm_api_server_rs.Persistence.Outbox.Retries.{
  attempts_made, Failures, start, recorded, command, Failures-bounded,
}
use hhm_api_server_rs.Persistence.Invariant.Steps.{Step}
use hhm_api_server_rs.Auth.{bearer_token, optional_subject}
use hhm_api_server_rs.External.{verify_turnstile}
use hhm_api_server_rs.Api.State.{World}
use hhm_api_server_rs.Api.Request.{
  canonical_digest_without_turnstile, idempotency_key, source_host, submission_context,
  authenticate_or_verify_public,
}
use hhm_api_server_rs.Api.Submissions.{
  persist_both, settle_submission, finish_submission, record_failure, create_pre_interest,
}
use hhm_api_server_rs.Api.Submissions.Accepted.{Admitted}
use hhm_api_server_rs.Api.Submissions.Retry.{Missed, create_pre_interest_retry}
use hhm_api_server_rs.Tests.Data.{
  state, public_headers, json, empty, both, context, healthy, down, accepting, pre_interest,
  digest_text,
}

-- The first attempt, with the mirror down.
abbrev missed_world : World
missed_world =
    (create_pre_interest (record state { supabase = down }) public_headers 7 json pre_interest
      (both empty)).1

abbrev row : Row PreInterestColumns
row = record (pre_interest_row accepting healthy primary context pre_interest 1) {
  mirror_status = "retryable_failure";
}

abbrev again : SubmissionContext
again = record context { canonical_id = 8 }

admitted : Admitted state public_headers 8 json pre_interest pre_interest.turnstile_token again
unfolding authenticate_or_verify_public optional_subject bearer_token verify_turnstile
    canonical_digest_without_turnstile submission_context idempotency_key source_host new_context
    lower_hex
admitted = record {
  subject = none;
  digest = digest_text;
  known = refl;
  digested = refl;
  built = refl;
}

missed : Missed again missed_world row
unfolding create_pre_interest persist_both settle_submission finish_submission record_failure
    authenticate_or_verify_public optional_subject bearer_token verify_turnstile
    canonical_digest_without_turnstile submission_context idempotency_key source_host new_context
    lower_hex store_pre_interest in_transaction insert_or_replay replay_submission stored_from_row
    require_same_payload insert_row query_one statement maybe_insert_outbox record_mirror_failure
    update_submission update_entry update_status
missed = record {
  found = refl;
  paid = refl;
  one_row = refl;
  one_entry = refl;
  in_mirror = inl refl;
}

create_pre_interest_retry_example :
    (create_pre_interest state public_headers 8 json pre_interest missed_world).0
    ≡ ok (record { submission_id = 7; kind = Kinds.pre_interest; accepted_at = 1 })
create_pre_interest_retry_example =
    create_pre_interest_retry state public_headers 8 json pre_interest refl (λ n. refl)
      (λ n column. refl) (λ n. refl) (λ n column. refl) again missed_world row admitted missed

-- A pre-interest is stored, its mirror fails, it is repeated, and the mirror fails again.
abbrev down_code : Text
down_code = codes "supabase_unavailable"

abbrev stored_once : Session
stored_once = (store_pre_interest accepting healthy primary context pre_interest empty).1

abbrev missed_once : Session
missed_once = (record_mirror_failure healthy Kinds.pre_interest 7 down_code stored_once).1

abbrev stored_twice : Session
stored_twice = (store_pre_interest accepting healthy primary context pre_interest missed_once).1

abbrev missed_twice : Session
missed_twice = (record_mirror_failure healthy Kinds.pre_interest 7 down_code stored_twice).1

history : Failures accepting healthy primary Kinds.pre_interest 7 empty 2 missed_twice
unfolding store_pre_interest insert_or_replay replay_submission stored_from_row require_same_payload
    insert_row query_one maybe_insert_outbox record_mirror_failure in_transaction update_submission
    update_entry update_status statement
history =
    recorded down_code
      (command
        (recorded down_code (command start (Step.pre_interest context pre_interest empty)) refl)
        (Step.pre_interest context pre_interest missed_once))
      refl

Failures-bounded_example :
    2 + attempts_made Kinds.pre_interest 7 empty.db.outbox
    ≤ 100 * count_where (is_entry Kinds.pre_interest 7) missed_twice.db.outbox
Failures-bounded_example =
    Failures-bounded accepting healthy primary Kinds.pre_interest 7 (omega arith) tt history
