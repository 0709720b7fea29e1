-- ===== src/Api/Submissions/Accepted.antt =====
-- src/api.rs: what a receipt of the three submission handlers says of the two databases.
pub mod Application
pub mod Referral
use hhm_api_server_rs.Common.{
  ℕ, ℤ, ◌≡◌, refl, sym, ap, ◌∙◌, arith, Option, none, some, Text, count_where,
}
use hhm_api_server_rs.Common.Result.{
  Result, ok, err, panic, map_err, map_err-eq-ok, lift, ◌>>=◌, ◌>>◌, lift-eq-ok,
}
use hhm_api_server_rs.Http.{HeaderMap}
use hhm_api_server_rs.Persistence.Error.{DataError}
use hhm_api_server_rs.Persistence.Kinds.{
  PersistenceTarget, primary, supabase_mirror, StoredSubmissionKind, pre_interest, application,
  referral,
}
use hhm_api_server_rs.Persistence.Context.{
  Uuid, VerifiedSubject, SubmissionContext, with_canonical_id,
}
use hhm_api_server_rs.Persistence.Inputs.{PreInterestCreate, ApplicationCreate, ReferralCreate}
use hhm_api_server_rs.Persistence.Rows.{
  Row, Db, Table, PreInterestColumns, pre_interest_table, application_table, referral_table,
}
use hhm_api_server_rs.Persistence.Session.{Session, Command}
use hhm_api_server_rs.Persistence.Submit.{StoredSubmission, pre_interest_row, store_pre_interest}
use hhm_api_server_rs.Persistence.Submit.Recorded.{Recorded, Submits}
use hhm_api_server_rs.Persistence.Refinement.{store_pre_interest-Submits}
use hhm_api_server_rs.Persistence.Outbox.{is_settled_entry}
use hhm_api_server_rs.Persistence.Outbox.Laws.{acknowledged, mark_mirrored-eq-ok}
use hhm_api_server_rs.Api.Failure.{ApiFailure, invalid_request}
use hhm_api_server_rs.Api.State.{AppState, World}
use hhm_api_server_rs.Api.Request.{
  Json, canonical_digest_without_turnstile, submission_context, authenticate_or_verify_public,
}
use hhm_api_server_rs.Api.Submissions.{
  SubmissionReceipt, connection, persist_both, create_pre_interest,
}
use hhm_api_server_rs.Api.Submissions.Receipt.{persist_both-eq-ok}

module _ (state : AppState) {P : Type 0} (kind : StoredSubmissionKind) (table : Table P)
    (values : PersistenceTarget → SubmissionContext → ℕ → Row P) where
  -- The primary recorded the submission with its outbox entry, the mirror recorded it under the
  -- same identifier, then the primary marked the row and the one entry as mirrored.
  pub record Accepted (context : SubmissionContext) (w : World) (receipt : SubmissionReceipt)
      (w' : World) : Type 0 where
    pub stored : StoredSubmission
    pub mirrored : StoredSubmission
    pub between : Db
    pub on_primary :
        Recorded state.primary primary kind table context
          (values primary context)
          w.primary.db
          stored
          between
    pub on_mirror :
        Recorded state.supabase supabase_mirror kind table
          (with_canonical_id context stored.id)
          (values supabase_mirror (with_canonical_id context stored.id))
          w.supabase.db
          mirrored
          w'.supabase.db
    pub one_id : mirrored.id ≡ stored.id
    pub settled :
        w'.primary.db ≡ acknowledged state.primary kind stored.id context.payload_sha256 between
    pub one_entry :
        count_where (is_settled_entry kind stored.id context.payload_sha256) between.outbox ≡ 1
    pub is :
        receipt
        ≡ record { submission_id = stored.id; kind = kind; accepted_at = stored.accepted_at }

  module _ (context : SubmissionContext)
      (store : PersistenceTarget → SubmissionContext → Command StoredSubmission)
      (first : Submits state.primary primary kind table context
        (values primary context)
        (store primary context))
      (second : (id : Uuid)
        → Submits state.supabase supabase_mirror kind table
            (with_canonical_id context id)
            (values supabase_mirror (with_canonical_id context id))
            (store supabase_mirror (with_canonical_id context id)))
      (w : World) {receipt : SubmissionReceipt} {w' : World} where
    pub persist_both-Accepted :
        persist_both state kind context store w ≡ (ok receipt, w') → Accepted context w receipt w'
    persist_both-Accepted h =
        let calls = persist_both-eq-ok state kind context store w h in
        let (settled, _, entry, _) =
          mark_mirrored-eq-ok state.primary kind calls.stored.id context.payload_sha256
            calls.between calls.marked in
        record {
          stored = calls.stored;
          mirrored = calls.mirrored;
          between = calls.between.db;
          on_primary =
              rw (← ap (λ x. x.1.db) calls.first)
                (first.returned w.primary calls.stored (ap (λ x. x.0) calls.first));
          on_mirror = rw (← ap (λ x. x.1.db) calls.second) (
              (second calls.stored.id).returned w.supabase calls.mirrored
                (ap (λ x. x.0) calls.second));
          one_id = calls.one_id;
          settled = settled;
          one_entry = entry;
          is = calls.is;
        }

module _ (state : AppState) (headers : HeaderMap) (fresh : Uuid) where
  -- The guards that a public request has passed, and the context that they make.
  pub record Admitted {I : Type 0} (json : Json I) (input : I) (proof : Option Text)
      (context : SubmissionContext) : Type 0 where
    pub subject : Option VerifiedSubject
    pub digest : Text
    pub known : authenticate_or_verify_public state headers proof ≡ ok subject
    pub digested : canonical_digest_without_turnstile state.outside json input ≡ ok digest
    pub built : submission_context state.outside fresh subject headers digest ≡ ok context

  -- The row that the handler writes to a target.
  abbrev pub pre_interest_rows :
      PreInterestCreate → PersistenceTarget → SubmissionContext → ℕ → Row PreInterestColumns
  pre_interest_rows input target ctx =
      pre_interest_row state.contract (connection state target) target ctx input

  -- A receipt for a pre-interest: the body was valid, the sender was known or proved to be no
  -- machine, the context carries the digest of the body, and both databases recorded the
  -- submission under the identifier and the time in the receipt.
  pub create_pre_interest-Accepted :
      (json : Json PreInterestCreate) (input : PreInterestCreate) (w : World)
      {receipt : SubmissionReceipt} {w' : World}
      → create_pre_interest state headers fresh json input w ≡ (ok receipt, w')
      → (state.contract.validate_pre_interest input ≡ ok tt)
        × ((context : SubmissionContext) × Admitted json input input.turnstile_token context
            × Accepted state pre_interest pre_interest_table
                (pre_interest_rows input)
                context
                w
                receipt
                w')
  unfolding create_pre_interest
  create_pre_interest-Accepted json input w h =
      let (_, valid, h1) =
        lift-eq-ok (map_err (λ _. invalid_request) (state.contract.validate_pre_interest input)) _ w
          h in
      let (subject, known, h2) =
        lift-eq-ok (authenticate_or_verify_public state headers input.turnstile_token) _ w h1 in
      let (digest, digested, h3) =
        lift-eq-ok (canonical_digest_without_turnstile state.outside json input) _ w h2 in
      let (context, built, h4) =
        lift-eq-ok (submission_context state.outside fresh subject headers digest) _ w h3 in
      (
        map_err-eq-ok (λ _. invalid_request) (state.contract.validate_pre_interest input) valid,
        (
          context,
          record {
            subject = subject;
            digest = digest;
            known = known;
            digested = digested;
            built = built;
          },
          persist_both-Accepted state pre_interest pre_interest_table (pre_interest_rows input)
              context
              (λ target ctx.
                store_pre_interest state.contract (connection state target) target ctx input)
              (store_pre_interest-Submits state.contract state.primary primary context input)
              (λ id.
                store_pre_interest-Submits state.contract state.supabase supabase_mirror
                  (with_canonical_id context id) input)
              w h4,
        ),
      )
