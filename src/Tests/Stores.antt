-- ===== src/Tests/Stores.antt =====
-- Runs of the commands that store submissions and settle them.
use hhm_api_server_rs.Common.{◌≡◌, refl, ◌⊎◌, true, false, none, some, Text, codes}
use hhm_api_server_rs.Common.Result.{ok}
use hhm_api_server_rs.Persistence.Kinds
use hhm_api_server_rs.Persistence.Kinds.{primary}
use hhm_api_server_rs.Persistence.Context.{SubmissionContext, subject_text}
use hhm_api_server_rs.Persistence.Rows.{pre_interest_table, referral_table}
use hhm_api_server_rs.Persistence.Session.{Session, in_transaction, query_one, statement}
use hhm_api_server_rs.Persistence.Submit.{
  StoredSubmission, insert_or_replay, replay_submission, stored_from_row, require_same_payload,
  insert_row, maybe_insert_outbox, pre_interest_row, referral_row, store_pre_interest,
  store_referral,
}
use hhm_api_server_rs.Persistence.Submit.Recorded.{Recorded}
use hhm_api_server_rs.Persistence.Application.{store_application}
use hhm_api_server_rs.Persistence.Refinement.{
  store_pre_interest_atomic, store_referral_atomic, store_application_atomic, Applied,
}
use hhm_api_server_rs.Persistence.Replay.{store_pre_interest_twice}
use hhm_api_server_rs.Persistence.Healthy.{expected_reply, store_pre_interest_healthy}
use hhm_api_server_rs.Persistence.Outbox.{mark_mirrored, record_mirror_failure}
use hhm_api_server_rs.Persistence.Outbox.Laws.{
  Acknowledges, Records, mark_mirrored_atomic, record_mirror_failure_atomic,
}
use hhm_api_server_rs.Tests.Data.{
  empty, with_uploads, with_tired, context, healthy, accepting, digest_text,
}
use hhm_api_server_rs.Tests.Data

abbrev after_first : Session
after_first = (store_pre_interest accepting healthy primary context Data.pre_interest empty).1

abbrev first : StoredSubmission
first = record { id = 7; accepted_at = 1; replayed = false }

abbrev again : StoredSubmission
again = record { id = 7; accepted_at = 1; replayed = true }

-- A second request draws another identifier.
abbrev second_context : SubmissionContext
second_context = record context { canonical_id = 8 }

abbrev after_second : Session
after_second =
    (store_pre_interest accepting healthy primary second_context Data.pre_interest after_first).1

first_run :
    store_pre_interest accepting healthy primary context Data.pre_interest empty
    ≡ (ok first, after_first)
unfolding store_pre_interest in_transaction insert_or_replay replay_submission stored_from_row
    require_same_payload insert_row query_one statement maybe_insert_outbox
first_run = refl

second_run :
    store_pre_interest accepting healthy primary second_context Data.pre_interest after_first
    ≡ (ok again, after_second)
unfolding store_pre_interest in_transaction insert_or_replay replay_submission stored_from_row
    require_same_payload insert_row query_one statement maybe_insert_outbox
second_run = refl

store_pre_interest_twice_example :
    (again ≡ record { id = 7; accepted_at = 1; replayed = true })
    × (after_second.db ≡ after_first.db)
    × (digest_text ≡ digest_text)
store_pre_interest_twice_example =
    store_pre_interest_twice accepting healthy primary context second_context Data.pre_interest
      Data.pre_interest empty after_first refl first_run refl second_run

store_pre_interest_healthy_example :
    (store_pre_interest accepting healthy primary context Data.pre_interest empty).0
    ≡ expected_reply none
        (pre_interest_row accepting healthy primary context Data.pre_interest 1)
        digest_text
store_pre_interest_healthy_example =
    store_pre_interest_healthy healthy (λ n. refl) (λ n column. refl) accepting primary context
      Data.pre_interest empty refl

store_pre_interest_atomic_example :
    (after_first.db ≡ empty.db)
    ⊎ ((a : StoredSubmission) × Recorded healthy primary Kinds.pre_interest pre_interest_table
          context
          (pre_interest_row accepting healthy primary context Data.pre_interest)
          empty.db
          a
          after_first.db)
store_pre_interest_atomic_example =
    store_pre_interest_atomic accepting healthy primary context Data.pre_interest empty

store_referral_atomic_example :
    ((store_referral accepting healthy primary context Data.referral empty).1.db ≡ empty.db)
    ⊎ ((subject : Text) × (a : StoredSubmission) × (subject_text context.subject ≡ some subject)
        × Recorded healthy primary Kinds.referral referral_table context
            (referral_row accepting healthy primary context subject Data.referral)
            empty.db
            a
            (store_referral accepting healthy primary context Data.referral empty).1.db)
store_referral_atomic_example =
    store_referral_atomic accepting healthy primary context Data.referral empty

store_application_atomic_example :
    ((store_application accepting healthy primary context Data.application with_uploads).1.db
      ≡ with_uploads.db)
    ⊎ Applied accepting healthy primary context Data.application with_uploads
        (store_application accepting healthy primary context Data.application with_uploads).1.db
store_application_atomic_example =
    store_application_atomic accepting healthy primary context Data.application with_uploads

mark_mirrored_atomic_example :
    ((mark_mirrored healthy Kinds.pre_interest 7 digest_text after_first).1.db ≡ after_first.db)
    ⊎ Acknowledges healthy Kinds.pre_interest 7 digest_text after_first.db
        (mark_mirrored healthy Kinds.pre_interest 7 digest_text after_first).1.db
mark_mirrored_atomic_example =
    mark_mirrored_atomic healthy Kinds.pre_interest 7 digest_text after_first

record_mirror_failure_atomic_example :
    ((record_mirror_failure healthy Kinds.pre_interest 7 (codes "down") after_first).1.db
      ≡ after_first.db)
    ⊎ Records healthy Kinds.pre_interest 7 after_first.calls
        (codes "down")
        after_first.db
        (record_mirror_failure healthy Kinds.pre_interest 7 (codes "down") after_first).1.db
record_mirror_failure_atomic_example =
    record_mirror_failure_atomic healthy Kinds.pre_interest 7 (codes "down") after_first
