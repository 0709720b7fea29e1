-- ===== src/Api/Submissions/Durable/Referral.antt =====
-- src/api.rs: what the two databases hold once `create_referral` has sent a receipt.
use hhm_api_server_rs.Common.{◌≡◌, refl}
use hhm_api_server_rs.Common.Result.{ok}
use hhm_api_server_rs.Http.{HeaderMap}
use hhm_api_server_rs.Persistence.Kinds.{referral}
use hhm_api_server_rs.Persistence.Context.{Uuid, SubmissionContext, VerifiedSubject}
use hhm_api_server_rs.Persistence.Inputs.{ReferralCreate}
use hhm_api_server_rs.Persistence.Rows.{referral_table}
use hhm_api_server_rs.Persistence.Replay.{referral-IsLens}
use hhm_api_server_rs.Api.State.{AppState, World}
use hhm_api_server_rs.Api.Request.{Json}
use hhm_api_server_rs.Api.Submissions.{SubmissionReceipt, create_referral}
use hhm_api_server_rs.Api.Submissions.Accepted.Referral.{
  Referred, referral_rows, create_referral-Accepted,
}
use hhm_api_server_rs.Api.Submissions.Dual.{referral-IsTableOf}
use hhm_api_server_rs.Api.Submissions.Durable.{Durable, Accepted-Durable}

module _ (state : AppState) (headers : HeaderMap) (fresh : Uuid) where
  -- A receipt for a referral by a proved subject: both databases hold the referral of the receipt,
  -- under the key and with the payload digest of the request, and the primary's outbox says that it
  -- was mirrored.
  pub create_referral-Durable :
      (json : Json ReferralCreate) (input : ReferralCreate) (w : World)
      {receipt : SubmissionReceipt} {w' : World}
      → create_referral state headers fresh json input w ≡ (ok receipt, w')
      → (subject : VerifiedSubject) × (context : SubmissionContext) × Referred state headers fresh
          json input subject context
        × Durable referral referral_table context receipt w'
  create_referral-Durable json input w h =
      let (_, (subject, context, admitted, accepted)) =
        create_referral-Accepted state headers fresh json input w h in
      (
        subject,
        context,
        admitted,
        Accepted-Durable state referral referral_table referral-IsLens referral-IsTableOf
            (referral_rows state headers fresh input subject.as_str) (λ t c n. refl) (λ t c n. refl)
            context w accepted,
      )
