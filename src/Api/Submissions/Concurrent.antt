-- ===== src/Api/Submissions/Concurrent.antt =====
-- src/api.rs: `create_pre_interest` while other requests run. Each command is one transaction, and
-- the commands of all requests may follow each other in any order.
pub mod Laws
pub mod Sequential
use hhm_api_server_rs.Common.{◌≡◌, true, false, Option, some, codes}
use hhm_api_server_rs.Common.Result.{Result, ok, err}
use hhm_api_server_rs.Persistence.Error.{DataError}
use hhm_api_server_rs.Persistence.Kinds.{PersistenceTarget, primary, supabase_mirror, pre_interest}
use hhm_api_server_rs.Persistence.Context.{SubmissionContext, with_canonical_id}
use hhm_api_server_rs.Persistence.Inputs.{PreInterestCreate}
use hhm_api_server_rs.Persistence.Session.{Session}
use hhm_api_server_rs.Persistence.Submit.{StoredSubmission, store_pre_interest}
use hhm_api_server_rs.Persistence.Outbox.{mark_mirrored, record_mirror_failure}
use hhm_api_server_rs.Persistence.Invariant.Steps.{Step}
use hhm_api_server_rs.Api.Failure.{ApiFailure, mirror_unavailable, from_data}
use hhm_api_server_rs.Api.State.{AppState, World, caught}
use hhm_api_server_rs.Api.Submissions.{SubmissionReceipt, mirrored_as}

-- How far a request is, once it has a context.
pub data Phase : Type 0 where
  received : Phase
  stored_in_primary missed mirrored : StoredSubmission → Phase
  answered : Result ApiFailure SubmissionReceipt → Phase

module _ (state : AppState) (context : SubmissionContext) (input : PreInterestCreate) where
  -- One command: the next one of the request, or any one of another request.
  pub data Turn : Phase → World → Phase → World → Type 0 where
    store :
        {w : World} {stored : StoredSubmission} {s : Session}
        → store_pre_interest state.contract state.primary primary context input w.primary
          ≡ (ok stored, s)
        → Turn received w (stored_in_primary stored) (record w { primary = s })
    refuse :
        {w : World} {e : DataError} {s : Session}
        → store_pre_interest state.contract state.primary primary context input w.primary
          ≡ (err e, s)
        → Turn received w (answered (err (from_data e))) (record w { primary = s })
    mirror :
        {w : World} {stored copy : StoredSubmission} {t : Session}
        → store_pre_interest state.contract state.supabase supabase_mirror
            (with_canonical_id context stored.id)
            input
            w.supabase
          ≡ (ok copy, t)
        → mirrored_as stored.id (some copy) ≡ true
        → Turn (stored_in_primary stored) w (mirrored stored) (record w { supabase = t })
    miss :
        {w : World} {stored : StoredSubmission} {r : Result DataError StoredSubmission}
        {o : Option StoredSubmission} {t : Session}
        → store_pre_interest state.contract state.supabase supabase_mirror
            (with_canonical_id context stored.id)
            input
            w.supabase
          ≡ (r, t)
        → caught r ≡ ok o
        → mirrored_as stored.id o ≡ false
        → Turn (stored_in_primary stored) w (missed stored) (record w { supabase = t })
    report :
        {w : World} {stored : StoredSubmission}
        → Turn (missed stored) w (answered (err (mirror_unavailable stored.id))) (record w {
          primary =
              (record_mirror_failure state.primary pre_interest stored.id
                (codes "supabase_unavailable")
                w.primary).1;
        })
    acknowledge :
        {w : World} {stored : StoredSubmission} {s : Session}
        → mark_mirrored state.primary pre_interest stored.id context.payload_sha256 w.primary
          ≡ (ok tt, s)
        → Turn
            (mirrored stored)
            w
            (answered (
              ok (record {
                submission_id = stored.id;
                kind = pre_interest;
                accepted_at = stored.accepted_at;
              })))
            (record w { primary = s })
    give_up :
        {w : World} {stored : StoredSubmission} {e : DataError} {s : Session}
        → mark_mirrored state.primary pre_interest stored.id context.payload_sha256 w.primary
          ≡ (err e, s)
        → Turn
            (mirrored stored)
            w
            (answered (err (mirror_unavailable stored.id)))
            (record w { primary = s })
    other_primary :
        {phase : Phase} {w : World} {s : Session}
        → Step state.contract state.primary primary w.primary s
        → Turn phase w phase (record w { primary = s })
    other_mirror :
        {phase : Phase} {w : World} {t : Session}
        → Step state.contract state.supabase supabase_mirror w.supabase t
        → Turn phase w phase (record w { supabase = t })

  -- Any number of them.
  pub data Run (phase : Phase) (w : World) : Phase → World → Type 0 where
    start : Run phase w phase w
    turn : {p q : Phase} {u v : World} → Run phase w p u → Turn p u q v → Run phase w q v
