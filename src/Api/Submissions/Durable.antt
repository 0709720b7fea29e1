-- ===== src/Api/Submissions/Durable.antt =====
-- src/api.rs: what the two databases hold once a submission handler has sent a receipt.
pub mod Application
pub mod Referral
use hhm_api_server_rs.Common.{
  ℕ, suc, ◌≡◌, refl, sym, ap, ◌∙◌, inl, inr, Bool, true, ◌&&◌, some, List, [], ◌∷◌, Text-Eq, ℕ-Eq,
  String-Eq, arith, any, count_where, modify_where, Bool-cases, ◌==◌,
}
use hhm_api_server_rs.Http.{HeaderMap}
use hhm_api_server_rs.Common.Result.{ok}
use hhm_api_server_rs.Persistence.Kinds.{
  PersistenceTarget, primary, supabase_mirror, StoredSubmissionKind, pre_interest,
}
use hhm_api_server_rs.Persistence.Context.{Uuid, SubmissionContext, with_canonical_id}
use hhm_api_server_rs.Persistence.Inputs.{PreInterestCreate}
use hhm_api_server_rs.Persistence.Rows.{Row, OutboxRow, Table, pre_interest_table}
use hhm_api_server_rs.Persistence.Replay.{Holds, IsLens, pre_interest-IsLens, Recorded-Holds}
use hhm_api_server_rs.Persistence.Outbox.{is_entry, is_settled_entry, mirrored_entry}
use hhm_api_server_rs.Api.State.{AppState, World}
use hhm_api_server_rs.Api.Request.{Json}
use hhm_api_server_rs.Api.Submissions.{SubmissionReceipt, create_pre_interest}
use hhm_api_server_rs.Api.Submissions.Accepted.{
  Accepted, Admitted, pre_interest_rows, create_pre_interest-Accepted,
}
use hhm_api_server_rs.Api.Submissions.Dual.{IsTableOf, pre_interest-IsTableOf, Holds-updated}

module _ {A : Type 0} (test goal : A → Bool) (change : A → A)
    (reaches : (x : A) → test x ≡ true → goal (change x) ≡ true) where
  -- An update that hits a row leaves a row that is as the update makes it.
  any-modify_where :
      (xs : List A) {n : ℕ}
      → count_where test xs ≡ suc n
      → any goal (modify_where test change xs) ≡ true
  any-modify_where [] h = ground arith
  any-modify_where (x ∷ xs) h = elim (Bool-cases (test x)) [
    | inl hit ↦ rw (hit, reaches x hit)
    | inr miss ↦ ground (arith, miss, any-modify_where xs (rw miss at h))
  ]

-- An entry of the outbox for a submission that is marked as mirrored.
abbrev pub is_mirrored_entry : StoredSubmissionKind → Uuid → OutboxRow → Bool
is_mirrored_entry kind id e = is_entry kind id e && e.mirror_status == "mirrored"

-- Both databases hold the submission of the receipt, under the key and with the payload digest of
-- one context, and the primary's outbox says that it was mirrored.
pub record Durable {P : Type 0} (kind : StoredSubmissionKind) (table : Table P)
    (context : SubmissionContext) (receipt : SubmissionReceipt) (w' : World) : Type 0 where
  pub in_primary : Holds table context receipt.submission_id receipt.accepted_at w'.primary.db
  pub mirrored_at : ℕ
  pub in_mirror : Holds table context receipt.submission_id mirrored_at w'.supabase.db
  pub entry : any (is_mirrored_entry kind receipt.submission_id) w'.primary.db.outbox ≡ true

module _ (state : AppState) {P : Type 0} (kind : StoredSubmissionKind) (table : Table P)
    (lens : IsLens table) (of_kind : IsTableOf kind table)
    (values : PersistenceTarget → SubmissionContext → ℕ → Row P)
    (keyed : (t : PersistenceTarget) (c : SubmissionContext) (n : ℕ)
      → (values t c n).idempotency_key ≡ c.idempotency_key)
    (paid : (t : PersistenceTarget) (c : SubmissionContext) (n : ℕ)
      → (values t c n).payload_sha256 ≡ c.payload_sha256)
    (context : SubmissionContext) (w : World) {receipt : SubmissionReceipt} {w' : World} where
  pub Accepted-Durable :
      Accepted state kind table values context w receipt w' → Durable kind table context receipt w'
  Accepted-Durable a =
      let mirror_context = with_canonical_id context a.stored.id in
      let first =
        Recorded-Holds state.primary primary kind table lens context (values primary context)
          (keyed primary context) (paid primary context) a.on_primary in
      let second =
        Recorded-Holds state.supabase supabase_mirror kind table lens mirror_context
          (values supabase_mirror mirror_context) (keyed supabase_mirror mirror_context)
          (paid supabase_mirror mirror_context) a.on_mirror in
      let settles = is_settled_entry kind a.stored.id context.payload_sha256 in
      let named : receipt.submission_id ≡ a.stored.id = ap (λ r. r.submission_id) a.is in
      let timed : receipt.accepted_at ≡ a.stored.accepted_at = ap (λ r. r.accepted_at) a.is in
      record {
        in_primary =
            rw (named, timed, a.settled)
              (Holds-updated of_kind context a.stored.id a.stored.id a.stored.accepted_at "mirrored"
                (some context.payload_sha256) settles mirrored_entry a.between first);
        mirrored_at = a.mirrored.accepted_at;
        in_mirror = record {
          row = second.row;
          found = second.found;
          paid = second.paid;
          named = second.named ∙ a.one_id ∙ sym named;
          timed = second.timed;
        };
        entry =
            rw (named, a.settled)
              (any-modify_where settles (is_mirrored_entry kind a.stored.id) mirrored_entry
                (λ x hit. ground (arith, hit)) a.between.outbox a.one_entry);
      }

module _ (state : AppState) (headers : HeaderMap) (fresh : Uuid) where
  -- A receipt for a pre-interest: both databases hold the submission of the receipt, under the key
  -- and with the payload digest of the request, and the primary's outbox says that it was mirrored.
  pub create_pre_interest-Durable :
      (json : Json PreInterestCreate) (input : PreInterestCreate) (w : World)
      {receipt : SubmissionReceipt} {w' : World}
      → create_pre_interest state headers fresh json input w ≡ (ok receipt, w')
      → (context : SubmissionContext) × Admitted state headers fresh json input
          input.turnstile_token context
        × Durable pre_interest pre_interest_table context receipt w'
  create_pre_interest-Durable json input w h =
      let (_, (context, admitted, accepted)) =
        create_pre_interest-Accepted state headers fresh json input w h in
      (
        context,
        admitted,
        Accepted-Durable state pre_interest pre_interest_table pre_interest-IsLens
            pre_interest-IsTableOf (pre_interest_rows state headers fresh input) (λ t c n. refl)
            (λ t c n. refl) context w accepted,
      )
