-- ===== src/Tests/Concurrent.antt =====
-- Two pre-interests whose commands alternate.
use hhm_api_server_rs.Common.{◌≡◌, ◌⊎◌, refl, codes}
use hhm_api_server_rs.Common.Result.{ok, panic}
use hhm_api_server_rs.Persistence.Kinds.{PersistenceTarget, primary, supabase_mirror}
use hhm_api_server_rs.Persistence.Kinds
use hhm_api_server_rs.Persistence.Context.{SubmissionContext, with_canonical_id}
use hhm_api_server_rs.Persistence.Session.{in_transaction, query_one, statement}
use hhm_api_server_rs.Persistence.Session
use hhm_api_server_rs.Persistence.Submit.{
  insert_or_replay, replay_submission, stored_from_row, require_same_payload, insert_row,
  maybe_insert_outbox, store_pre_interest,
}
use hhm_api_server_rs.Persistence.Outbox.{
  update_status, update_submission, update_entry, mark_mirrored,
}
use hhm_api_server_rs.Persistence.Invariant.Steps
use hhm_api_server_rs.Api.Submissions.{SubmissionReceipt, persist_both}
use hhm_api_server_rs.Api.Submissions.Concurrent.{
  Run, start, turn, store, mirror, acknowledge, other_primary, received, answered,
}
use hhm_api_server_rs.Api.Submissions.Concurrent.Laws.{IsHeldTwice, Run-IsHeldTwice}
use hhm_api_server_rs.Api.Submissions.Concurrent.Sequential.{command, persist_both-Run}
use hhm_api_server_rs.Tests.Data.{state, context, healthy, accepting, both, empty, pre_interest}

-- The context of the other request.
abbrev other : SubmissionContext
other = record context { canonical_id = 9; idempotency_key = codes "another-key-01234567" }

abbrev first : Session.Session
first = (store_pre_interest accepting healthy primary context pre_interest empty).1

abbrev second : Session.Session
second = (store_pre_interest accepting healthy primary other pre_interest first).1

abbrev copied : Session.Session
copied =
    (store_pre_interest accepting healthy supabase_mirror (with_canonical_id context 7) pre_interest
      empty).1

abbrev settled : Session.Session
settled = (mark_mirrored healthy Kinds.pre_interest 7 context.payload_sha256 second).1

abbrev receipt : SubmissionReceipt
receipt = record { submission_id = 7; kind = Kinds.pre_interest; accepted_at = 1 }

alternating :
    Run state context pre_interest received
      (both empty)
      (answered (ok receipt))
      (record { primary = settled; supabase = copied })
unfolding store_pre_interest in_transaction insert_or_replay replay_submission stored_from_row
    require_same_payload insert_row query_one statement maybe_insert_outbox mark_mirrored
    update_submission update_entry update_status
alternating =
    turn
      (turn
        (turn (turn start (store {s = first} refl))
          (other_primary (Steps.pre_interest other pre_interest first)))
        (mirror {t = copied} refl refl))
      (acknowledge {s = settled} refl)

Run-IsHeldTwice_example :
    IsHeldTwice state context pre_interest 7 1 (record { primary = settled; supabase = copied })
Run-IsHeldTwice_example = Run-IsHeldTwice state context pre_interest alternating

persist_both-Run_example :
    ((persist_both state Kinds.pre_interest context
        (command state context pre_interest)
        (both empty)).0
      ≡ panic)
    ⊎ Run state context pre_interest received
        (both empty)
        (answered
          (persist_both state Kinds.pre_interest context
            (command state context pre_interest)
            (both empty)).0)
        (persist_both state Kinds.pre_interest context
          (command state context pre_interest)
          (both empty)).1
persist_both-Run_example = persist_both-Run state context pre_interest (both empty)
