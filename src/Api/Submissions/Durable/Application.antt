-- ===== src/Api/Submissions/Durable/Application.antt =====
-- src/api.rs: what the two databases hold once `create_application` has sent a receipt.
use hhm_api_server_rs.Common.{◌≡◌, refl}
use hhm_api_server_rs.Common.Result.{ok}
use hhm_api_server_rs.Http.{HeaderMap}
use hhm_api_server_rs.Persistence.Kinds.{application}
use hhm_api_server_rs.Persistence.Context.{Uuid, SubmissionContext}
use hhm_api_server_rs.Persistence.Inputs.{ApplicationCreate}
use hhm_api_server_rs.Persistence.Rows.{application_table}
use hhm_api_server_rs.Persistence.Replay.{application-IsLens}
use hhm_api_server_rs.Api.State.{AppState, World}
use hhm_api_server_rs.Api.Request.{Json}
use hhm_api_server_rs.Api.Submissions.{SubmissionReceipt, create_application}
use hhm_api_server_rs.Api.Submissions.Accepted.{Admitted}
use hhm_api_server_rs.Api.Submissions.Accepted.Application.{
  application_rows, create_application-Accepted,
}
use hhm_api_server_rs.Api.Submissions.Dual.{application-IsTableOf}
use hhm_api_server_rs.Api.Submissions.Durable.{Durable, Accepted-Durable}

module _ (state : AppState) (headers : HeaderMap) (fresh : Uuid) where
  -- A receipt for an application: both databases hold the application of the receipt, under the key
  -- and with the payload digest of the request, and the primary's outbox says that it was mirrored.
  pub create_application-Durable :
      (json : Json ApplicationCreate) (input : ApplicationCreate) (w : World)
      {receipt : SubmissionReceipt} {w' : World}
      → create_application state headers fresh json input w ≡ (ok receipt, w')
      → (context : SubmissionContext) × Admitted state headers fresh json input
          input.turnstile_token context
        × Durable application application_table context receipt w'
  create_application-Durable json input w h =
      let (_, (context, occupancy, _, admitted, accepted)) =
        create_application-Accepted state headers fresh json input w h in
      (
        context,
        admitted,
        Accepted-Durable state application application_table application-IsLens
            application-IsTableOf (application_rows state headers fresh input occupancy)
            (λ t c n. refl) (λ t c n. refl) context w accepted,
      )
