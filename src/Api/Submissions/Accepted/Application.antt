-- ===== src/Api/Submissions/Accepted/Application.antt =====
-- src/api.rs: `create_application`, what a receipt says.
use hhm_api_server_rs.Common.{ℕ, ℤ, ◌≡◌}
use hhm_api_server_rs.Common.Result.{ok, map_err, map_err-eq-ok, lift-eq-ok}
use hhm_api_server_rs.Http.{HeaderMap}
use hhm_api_server_rs.Persistence.Error.{validation}
use hhm_api_server_rs.Persistence.Kinds.{PersistenceTarget, primary, supabase_mirror, application}
use hhm_api_server_rs.Persistence.Context.{Uuid, SubmissionContext, with_canonical_id}
use hhm_api_server_rs.Persistence.Inputs.{Contract, ApplicationCreate}
use hhm_api_server_rs.Persistence.Rows.{Row, ApplicationColumns, application_table}
use hhm_api_server_rs.Persistence.Session.{WriteContext, Session}
use hhm_api_server_rs.Persistence.Submit.{StoredSubmission}
use hhm_api_server_rs.Persistence.Application.{application_row, store_application, to_i16}
use hhm_api_server_rs.Persistence.Refinement.{store_application-Submits}
use hhm_api_server_rs.Api.Failure.{invalid_request}
use hhm_api_server_rs.Api.State.{AppState, World}
use hhm_api_server_rs.Api.Request.{
  Json, canonical_digest_without_turnstile, submission_context, authenticate_or_verify_public,
}
use hhm_api_server_rs.Api.Submissions.{SubmissionReceipt, connection, create_application}
use hhm_api_server_rs.Api.Submissions.Receipt.{persist_both-eq-ok}
use hhm_api_server_rs.Api.Submissions.Accepted.{Accepted, Admitted, persist_both-Accepted}

module _ (contract : Contract) (self : WriteContext) (target : PersistenceTarget)
    (context : SubmissionContext) (input : ApplicationCreate) where
  -- A stored application has an occupancy that fits.
  occupancy_fits :
      (s : Session) {stored : StoredSubmission} {s' : Session}
      → store_application contract self target context input s ≡ (ok stored, s')
      → (occupancy : ℤ) × (to_i16 input.preferred_room_occupancy ≡ ok occupancy)
  unfolding store_application
  occupancy_fits s h =
      let (_, _, rest) =
        lift-eq-ok (map_err validation (contract.validate_application input)) _ s h in
      let (occupancy, fits, _) = lift-eq-ok (to_i16 input.preferred_room_occupancy) _ s rest in
      (occupancy, fits)

module _ (state : AppState) (headers : HeaderMap) (fresh : Uuid) where
  -- The row that the handler writes to a target.
  abbrev pub application_rows :
      ApplicationCreate → ℤ → PersistenceTarget → SubmissionContext → ℕ → Row ApplicationColumns
  application_rows input occupancy target ctx =
      application_row state.contract (connection state target) target ctx input occupancy

  -- A receipt for an application: the body was valid, its occupancy fits in 16 bits, the sender was
  -- known or passed Turnstile, the context carries the digest of the body, and both databases
  -- recorded the application under the identifier and the time in the receipt.
  pub create_application-Accepted :
      (json : Json ApplicationCreate) (input : ApplicationCreate) (w : World)
      {receipt : SubmissionReceipt} {w' : World}
      → create_application state headers fresh json input w ≡ (ok receipt, w')
      → (state.contract.validate_application input ≡ ok tt)
        × ((context : SubmissionContext) × (occupancy : ℤ) × (to_i16 input.preferred_room_occupancy
              ≡ ok occupancy)
            × Admitted state headers fresh json input input.turnstile_token context
            × Accepted state application application_table
                (application_rows input occupancy)
                context
                w
                receipt
                w')
  unfolding create_application
  create_application-Accepted json input w h =
      let (_, valid, h1) =
        lift-eq-ok (map_err (λ _. invalid_request) (state.contract.validate_application input)) _ w
          h in
      let (subject, known, h2) =
        lift-eq-ok (authenticate_or_verify_public state headers input.turnstile_token) _ w h1 in
      let (digest, digested, h3) =
        lift-eq-ok (canonical_digest_without_turnstile state.outside json input) _ w h2 in
      let (context, built, h4) =
        lift-eq-ok (submission_context state.outside fresh subject headers digest) _ w h3 in
      let store = λ (target : PersistenceTarget) (ctx : SubmissionContext).
        store_application state.contract (connection state target) target ctx input in
      let calls = persist_both-eq-ok state application context store w h4 in
      let (occupancy, fits) =
        occupancy_fits state.contract state.primary primary context input w.primary calls.first in
      (
        map_err-eq-ok (λ _. invalid_request) (state.contract.validate_application input) valid,
        (
          context,
          occupancy,
          fits,
          record {
            subject = subject;
            digest = digest;
            known = known;
            digested = digested;
            built = built;
          },
          persist_both-Accepted state application application_table
              (application_rows input occupancy) context store
              (store_application-Submits state.contract state.primary primary context input
                occupancy fits)
              (λ id.
                store_application-Submits state.contract state.supabase supabase_mirror
                  (with_canonical_id context id) input occupancy fits)
              w h4,
        ),
      )
