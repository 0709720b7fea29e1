-- ===== src/Api/Submissions/Concurrent/Sequential.antt =====
-- src/api.rs: `create_pre_interest` alone, as one of the runs of concurrent requests.
use hhm_api_server_rs.Common.{◌≡◌, refl, ◌⊎◌, inl, inr, some, codes, Bool-cases}
use hhm_api_server_rs.Common.Result.{Result, ok, err, panic, raise, ◌>>=◌, ◌>>◌}
use hhm_api_server_rs.Persistence.Kinds.{PersistenceTarget, primary, supabase_mirror, pre_interest}
use hhm_api_server_rs.Persistence.Context.{SubmissionContext, with_canonical_id}
use hhm_api_server_rs.Persistence.Inputs.{PreInterestCreate}
use hhm_api_server_rs.Persistence.Session.{Command}
use hhm_api_server_rs.Persistence.Submit.{StoredSubmission, store_pre_interest}
use hhm_api_server_rs.Persistence.Outbox.{mark_mirrored, record_mirror_failure}
use hhm_api_server_rs.Api.Failure.{ApiFailure, mirror_unavailable}
use hhm_api_server_rs.Api.State.{AppState, World, attempt, on_supabase}
use hhm_api_server_rs.Api.Submissions.{
  SubmissionReceipt, connection, mirrored_as, record_failure, finish_submission, settle_submission,
  persist_both,
}
use hhm_api_server_rs.Api.Submissions.Concurrent.{
  received, stored_in_primary, missed, mirrored, answered, store, refuse, mirror, miss, report,
  acknowledge, give_up, Run, start, turn,
}

outcomes :
    {E A : Type 0} (r : Result E A) → ((a : A) × (r ≡ ok a)) ⊎ ((e : E) × (r ≡ err e)) ⊎ (r ≡ panic)
outcomes (ok a) = inl (a, refl)
outcomes (err e) = inr (inl (e, refl))
outcomes panic = inr (inr refl)

module _ (state : AppState) (context : SubmissionContext) (input : PreInterestCreate) where
  -- The command that both databases get.
  abbrev pub command : PersistenceTarget → SubmissionContext → Command StoredSubmission
  command target ctx = store_pre_interest state.contract (connection state target) target ctx input

  -- A panic, or a run from the request to its answer.
  abbrev Runs : World → Result ApiFailure SubmissionReceipt × World → Type 0
  Runs w x = (x.0 ≡ panic) ⊎ Run state context input received w (answered x.0) x.1

  finish-Runs :
      (w v : World) (stored : StoredSubmission)
      → Run state context input received w (mirrored stored) v
      → Runs w (finish_submission state pre_interest context stored v)
  unfolding finish_submission
  finish-Runs w v stored run =
      let marking =
        mark_mirrored state.primary pre_interest stored.id context.payload_sha256 v.primary in
      elim (outcomes marking.0) [
        | inl (u, e) ↦ rw e (inr (turn run (acknowledge (λ i. (e i, marking.1)))))
        | inr (inl (d, e)) ↦ rw e (inr (turn run (give_up (λ i. (e i, marking.1)))))
        | inr (inr e) ↦ rw e (inl refl)
      ]

  fail-Runs :
      (w v : World) (stored : StoredSubmission)
      → Run state context input received w (missed stored) v
      → Runs w
          ((record_failure state pre_interest stored.id >> raise (mirror_unavailable stored.id)) v)
  unfolding record_failure
  fail-Runs w v stored run =
      let code = codes "supabase_unavailable" in
      let recording = record_mirror_failure state.primary pre_interest stored.id code v.primary in
      elim (outcomes recording.0) [
        | inl (u, e) ↦ rw e (inr (turn run report))
        | inr (inl (d, e)) ↦ rw e (inr (turn run report))
        | inr (inr e) ↦ rw e (inl refl)
      ]

  mirror-Runs :
      (w v : World) (stored : StoredSubmission)
      → Run state context input received w (stored_in_primary stored) v
      → Runs w (
          (attempt (on_supabase (command supabase_mirror (with_canonical_id context stored.id)))
              >>= settle_submission state pre_interest context stored)
            v)
  unfolding settle_submission
  mirror-Runs w v stored run =
      let mirroring = command supabase_mirror (with_canonical_id context stored.id) v.supabase in
      let after : World = record v { supabase = mirroring.1 } in
      elim (outcomes mirroring.0) [
        | inl (copy, e) ↦ elim (Bool-cases (mirrored_as stored.id (some copy))) [
          | inl named ↦
              rw (e, named)
                (finish-Runs w after stored (turn run (mirror (λ i. (e i, mirroring.1)) named)))
          | inr other ↦
              rw (e, other)
                (fail-Runs w after stored (turn run (miss (λ i. (e i, mirroring.1)) refl other)))
        ]
        | inr (inl (d, e)) ↦
            rw e (fail-Runs w after stored (turn run (miss (λ i. (e i, mirroring.1)) refl refl)))
        | inr (inr e) ↦ rw e (inl refl)
      ]

  -- Alone, the dual write of a pre-interest is a run of its own commands, to the answer that the
  -- handler sends; or one of its commands panics.
  pub persist_both-Run :
      (w : World)
      → ((persist_both state pre_interest context command w).0 ≡ panic)
        ⊎ Run state context input received w
            (answered (persist_both state pre_interest context command w).0)
            (persist_both state pre_interest context command w).1
  unfolding persist_both
  persist_both-Run w =
      let writing = command primary context w.primary in
      let after : World = record w { primary = writing.1 } in
      elim (outcomes writing.0) [
        | inl (stored, e) ↦
            rw e (mirror-Runs w after stored (turn start (store (λ i. (e i, writing.1)))))
        | inr (inl (d, e)) ↦ rw e (inr (turn start (refuse (λ i. (e i, writing.1)))))
        | inr (inr e) ↦ rw e (inl refl)
      ]
