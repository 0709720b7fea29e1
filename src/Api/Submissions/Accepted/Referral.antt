-- ===== src/Api/Submissions/Accepted/Referral.antt =====
-- src/api.rs: `create_referral`, what a receipt says.
use hhm_api_server_rs.Common.{ℕ, ◌≡◌, ap, some, Text}
use hhm_api_server_rs.Common.Result.{ok, map_err, map_err-eq-ok, lift-eq-ok}
use hhm_api_server_rs.Http.{HeaderMap}
use hhm_api_server_rs.Persistence.Kinds.{PersistenceTarget, primary, supabase_mirror, referral}
use hhm_api_server_rs.Persistence.Context.{
  Uuid, VerifiedSubject, SubmissionContext, with_canonical_id, authenticated, subject_text,
}
use hhm_api_server_rs.Persistence.Context.Laws.{new_context-eq-ok}
use hhm_api_server_rs.Persistence.Inputs.{ReferralCreate}
use hhm_api_server_rs.Persistence.Rows.{Row, ReferralColumns, referral_table}
use hhm_api_server_rs.Persistence.Submit.{referral_row, store_referral}
use hhm_api_server_rs.Persistence.Refinement.{store_referral-Submits}
use hhm_api_server_rs.Auth.{required_subject}
use hhm_api_server_rs.Api.Failure.{invalid_request, from_auth, from_data}
use hhm_api_server_rs.Api.State.{AppState, World}
use hhm_api_server_rs.Api.Request.{Json, canonical_digest, idempotency_key, source_host}
use hhm_api_server_rs.Api.Submissions.{SubmissionReceipt, connection, create_referral}
use hhm_api_server_rs.Api.Submissions.Accepted.{Accepted, persist_both-Accepted}

module _ (state : AppState) (headers : HeaderMap) (fresh : Uuid) where
  -- The row that the handler writes to a target.
  abbrev pub referral_rows :
      ReferralCreate → Text → PersistenceTarget → SubmissionContext → ℕ → Row ReferralColumns
  referral_rows input subject target ctx =
      referral_row state.contract (connection state target) target ctx subject input

  -- The guards that a referral has passed, and the context that they make.
  pub record Referred (json : Json ReferralCreate) (input : ReferralCreate)
      (subject : VerifiedSubject) (context : SubmissionContext) : Type 0 where
    pub key : Text
    pub digest : Text
    pub host : Text
    pub known : required_subject state.outside state.audience headers ≡ ok subject
    pub keyed : idempotency_key headers ≡ ok key
    pub digested : canonical_digest state.outside json input ≡ ok digest
    pub hosted : source_host state.outside headers ≡ ok host
    pub built : authenticated fresh subject key digest host ≡ ok context

  subject_of_context :
      (subject : VerifiedSubject) (key digest host : Text) {context : SubmissionContext}
      → authenticated fresh subject key digest host ≡ ok context
      → subject_text context.subject ≡ some subject.as_str
  subject_of_context subject key digest host h =
      let (_, _, _, is) = new_context-eq-ok fresh (some subject) key digest host h in
      ap (λ (c : SubmissionContext). subject_text c.subject) is

  -- A receipt for a referral: the body was valid, the bearer token proved a subject, the context
  -- carries that subject and the digest of the body, and both databases recorded the referral by
  -- that subject under the identifier and the time in the receipt.
  pub create_referral-Accepted :
      (json : Json ReferralCreate) (input : ReferralCreate) (w : World)
      {receipt : SubmissionReceipt} {w' : World}
      → create_referral state headers fresh json input w ≡ (ok receipt, w')
      → (state.contract.validate_referral input ≡ ok tt)
        × ((subject : VerifiedSubject) × (context : SubmissionContext) × Referred json input subject
              context
            × Accepted state referral referral_table
                (referral_rows input subject.as_str)
                context
                w
                receipt
                w')
  unfolding create_referral
  create_referral-Accepted json input w h =
      let (_, valid, h1) =
        lift-eq-ok (map_err (λ _. invalid_request) (state.contract.validate_referral input)) _ w
          h in
      let check = required_subject state.outside state.audience headers in
      let (subject, known, h2) = lift-eq-ok (map_err from_auth check) _ w h1 in
      let (key, keyed, h3) = lift-eq-ok (idempotency_key headers) _ w h2 in
      let (digest, digested, h4) = lift-eq-ok (canonical_digest state.outside json input) _ w h3 in
      let (host, hosted, h5) = lift-eq-ok (source_host state.outside headers) _ w h4 in
      let (context, built', h6) =
        lift-eq-ok (map_err from_data (authenticated fresh subject key digest host)) _ w h5 in
      let built = map_err-eq-ok from_data (authenticated fresh subject key digest host) built' in
      let named = subject_of_context subject key digest host built in
      let store = λ (target : PersistenceTarget) (ctx : SubmissionContext).
        store_referral state.contract (connection state target) target ctx input in
      (
        map_err-eq-ok (λ _. invalid_request) (state.contract.validate_referral input) valid,
        (
          subject,
          context,
          record {
            key = key;
            digest = digest;
            host = host;
            known = map_err-eq-ok from_auth check known;
            keyed = keyed;
            digested = digested;
            hosted = hosted;
            built = built;
          },
          persist_both-Accepted state referral referral_table (referral_rows input subject.as_str)
              context store
              (store_referral-Submits state.contract state.primary primary context input
                subject.as_str named)
              (λ id.
                store_referral-Submits state.contract state.supabase supabase_mirror
                  (with_canonical_id context id) input subject.as_str named)
              w h6,
        ),
      )
