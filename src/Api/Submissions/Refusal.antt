-- ===== src/Api/Submissions/Refusal.antt =====
-- src/api.rs: what the three submission handlers leave where they answer with an error.
use hhm_api_server_rs.Common.{
  ◌≡◌, ◌≢◌, refl, ◌⊎◌, inl, inr, Option, Text-Eq, ℕ-Eq, arith, Bool-cases,
}
use hhm_api_server_rs.Common.Result.{Result, ok, err, panic, map_err, continue, ◌>>=◌}
use hhm_api_server_rs.Persistence.Error.{DataError}
use hhm_api_server_rs.Persistence.Kinds.{
  PersistenceTarget, primary, supabase_mirror, StoredSubmissionKind,
}
use hhm_api_server_rs.Persistence.Context.{SubmissionContext, with_canonical_id}
use hhm_api_server_rs.Persistence.Session.{Command}
use hhm_api_server_rs.Persistence.Submit.{StoredSubmission}
use hhm_api_server_rs.Api.Failure.{ApiFailure, mirror_unavailable, from_data}
use hhm_api_server_rs.Api.State.{AppState, World, on_supabase, attempt, caught}
use hhm_api_server_rs.Api.Submissions.{
  record_failure, finish_submission, mirrored_as, settle_submission, persist_both,
}

-- An inspected command never ends a handler by its own error.
caught-not-err : {A : Type 0} (r : Result DataError A) {e : ApiFailure} → caught r ≢ err e
caught-not-err (ok a) h = cc
caught-not-err (err d) h = cc
caught-not-err panic h = cc

module _ (state : AppState) (kind : StoredSubmissionKind) (context : SubmissionContext)
    (store : PersistenceTarget → SubmissionContext → Command StoredSubmission) where
  -- Once the primary has stored a submission, every error names it.
  settle_error :
      (stored : StoredSubmission) (o : Option StoredSubmission) (w : World) {e : ApiFailure}
      → (settle_submission state kind context stored o w).0 ≡ err e
      → e ≡ mirror_unavailable stored.id
  unfolding settle_submission finish_submission record_failure
  settle_error stored o w h = ground (arith, Bool-cases (mirrored_as stored.id o))

  after_mirror :
      (stored : StoredSubmission) (r : Result ApiFailure (Option StoredSubmission)) (w : World)
      {e : ApiFailure}
      → r ≢ err e
      → (continue r (settle_submission state kind context stored) w).0 ≡ err e
      → e ≡ mirror_unavailable stored.id
  after_mirror stored (ok o) w n h = settle_error stored o w h
  after_mirror stored (err d) w n h = ground (arith, n, h)
  after_mirror stored panic w n h = cc

  -- The outcome of the primary's write decides.
  outcome :
      (r : Result DataError StoredSubmission) (w : World) {e : ApiFailure}
      → (continue
          (map_err from_data r)
          (λ stored.
            attempt (on_supabase (store supabase_mirror (with_canonical_id context stored.id)))
            >>= settle_submission state kind context stored)
          w).0
        ≡ err e
      → ((d : DataError) × (r ≡ err d)
          × (e ≡ from_data d)
          × ((continue
                (map_err from_data r)
                (λ stored.
                  attempt
                    (on_supabase (store supabase_mirror (with_canonical_id context stored.id)))
                  >>= settle_submission state kind context stored)
                w).1.supabase
              ≡ w.supabase))
        ⊎ ((stored : StoredSubmission) × (r ≡ ok stored) × (e ≡ mirror_unavailable stored.id))
  outcome (err d) w h = inl (d, refl, ground (arith, h), refl)
  outcome panic w h = cc
  outcome (ok stored) w h = inr (
    stored,
    refl,
    after_mirror stored
        (caught (store supabase_mirror (with_canonical_id context stored.id) w.supabase).0) _
        (caught-not-err (store supabase_mirror (with_canonical_id context stored.id) w.supabase).0)
        h,
  )

  -- An error of the dual write is either the primary's own, and then the mirror was not asked and
  -- the answer names no submission; or the primary has stored the submission, and the answer is the
  -- retryable one that names it.
  pub persist_both-eq-err :
      (w : World) {e : ApiFailure}
      → (persist_both state kind context store w).0 ≡ err e
      → ((d : DataError) × ((store primary context w.primary).0 ≡ err d)
          × (e ≡ from_data d)
          × ((persist_both state kind context store w).1.supabase ≡ w.supabase))
        ⊎ ((stored : StoredSubmission) × ((store primary context w.primary).0 ≡ ok stored)
            × (e ≡ mirror_unavailable stored.id))
  unfolding persist_both
  persist_both-eq-err w h = outcome (store primary context w.primary).0 _ h
