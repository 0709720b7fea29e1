-- ===== src/Api/Submissions/Concurrent/Laws.antt =====
-- src/api.rs: what concurrent requests keep of an accepted pre-interest.
use hhm_api_server_rs.Common.{ℕ, ◌≡◌, refl, ap, ◌∙◌, ℕ-Eq, nat_eq_iff}
use hhm_api_server_rs.Common.Result.{ok, err, panic}
use hhm_api_server_rs.Persistence.Kinds.{PersistenceTarget, primary, supabase_mirror, pre_interest}
use hhm_api_server_rs.Persistence.Context.{Uuid, SubmissionContext, with_canonical_id}
use hhm_api_server_rs.Persistence.Inputs.{PreInterestCreate}
use hhm_api_server_rs.Persistence.Rows.{pre_interest_table}
use hhm_api_server_rs.Persistence.Session.{WriteContext, Session}
use hhm_api_server_rs.Persistence.Inputs.{Contract}
use hhm_api_server_rs.Persistence.Submit.{StoredSubmission, pre_interest_row, store_pre_interest}
use hhm_api_server_rs.Persistence.Submit.Recorded.{Submits-eq-ok}
use hhm_api_server_rs.Persistence.Refinement.{store_pre_interest-Submits}
use hhm_api_server_rs.Persistence.Replay.{Holds, Recorded-Holds, pre_interest-IsLens}
use hhm_api_server_rs.Persistence.Outbox.{mark_mirrored}
use hhm_api_server_rs.Persistence.Invariant.Steps.{Step, acknowledgement, Step-Effect}
use hhm_api_server_rs.Persistence.Invariant.Held.{Holds-changed, Effect-pre_interests}
use hhm_api_server_rs.Api.State.{AppState, World}
use hhm_api_server_rs.Api.Submissions.{SubmissionReceipt}
use hhm_api_server_rs.Api.Submissions.Concurrent.{
  Phase, received, stored_in_primary, missed, mirrored, answered, Turn, store, refuse, mirror, miss,
  report, acknowledge, give_up, other_primary, other_mirror, Run, start, turn,
}

module _ (contract : Contract) (self : WriteContext) (target : PersistenceTarget)
    (context : SubmissionContext) (id : Uuid) (at : ℕ) where
  -- Every step of a database keeps a stored pre-interest.
  Step-Holds :
      {s t : Session}
      → Step contract self target s t
      → Holds pre_interest_table context id at s.db
      → Holds pre_interest_table context id at t.db
  Step-Holds step h =
      Holds-changed context pre_interest_table id at
        (Effect-pre_interests contract self target (Step-Effect contract self target step)) h

-- A pre-interest that was returned is held.
stored-Holds :
    (contract : Contract) (self : WriteContext) (target : PersistenceTarget)
    (context : SubmissionContext) (input : PreInterestCreate) (s : Session)
    {stored : StoredSubmission} {t : Session}
    → store_pre_interest contract self target context input s ≡ (ok stored, t)
    → Holds pre_interest_table context stored.id stored.accepted_at t.db
stored-Holds contract self target context input s h =
    let values = pre_interest_row contract self target context input in
    Recorded-Holds self target pre_interest pre_interest_table pre_interest-IsLens context values
      (λ n. refl) (λ n. refl)
      (Submits-eq-ok self target pre_interest pre_interest_table context values
        (store_pre_interest-Submits contract self target context input) h)

module _ (state : AppState) (context : SubmissionContext) (input : PreInterestCreate) where
  -- The two databases hold the pre-interest, under the key and with the digest of the context.
  pub record IsHeldTwice (id : Uuid) (accepted_at : ℕ) (w : World) : Type 0 where
    pub in_primary : Holds pre_interest_table context id accepted_at w.primary.db
    pub mirrored_at : ℕ
    pub in_mirror : Holds pre_interest_table context id mirrored_at w.supabase.db

  -- What is held in each phase of the request.
  abbrev IsHeld : Phase → World → Type 0
  IsHeld received w = Unit
  IsHeld (stored_in_primary stored) w =
      Holds pre_interest_table context stored.id stored.accepted_at w.primary.db
  IsHeld (missed stored) w =
      Holds pre_interest_table context stored.id stored.accepted_at w.primary.db
  IsHeld (mirrored stored) w = IsHeldTwice stored.id stored.accepted_at w
  IsHeld (answered (ok receipt)) w = IsHeldTwice receipt.submission_id receipt.accepted_at w
  IsHeld (answered (err e)) w = Unit
  IsHeld (answered panic) w = Unit

  twice_primary :
      {id : Uuid} {at : ℕ} {w : World} {s : Session}
      → Step state.contract state.primary primary w.primary s
      → IsHeldTwice id at w
      → IsHeldTwice id at (record w { primary = s })
  twice_primary {id} {at} step h = record {
    in_primary = Step-Holds state.contract state.primary primary context id at step h.in_primary;
    mirrored_at = h.mirrored_at;
    in_mirror = h.in_mirror;
  }

  twice_mirror :
      {id : Uuid} {at : ℕ} {w : World} {t : Session}
      → Step state.contract state.supabase supabase_mirror w.supabase t
      → IsHeldTwice id at w
      → IsHeldTwice id at (record w { supabase = t })
  twice_mirror {id} step h = record {
    in_primary = h.in_primary;
    mirrored_at = h.mirrored_at;
    in_mirror =
        Step-Holds state.contract state.supabase supabase_mirror context id h.mirrored_at step
          h.in_mirror;
  }

  after_primary :
      (phase : Phase) (w : World) (s : Session)
      → Step state.contract state.primary primary w.primary s
      → IsHeld phase w
      → IsHeld phase (record w { primary = s })
  after_primary received w s step h = tt
  after_primary (stored_in_primary stored) w s step h =
      Step-Holds state.contract state.primary primary context stored.id stored.accepted_at step h
  after_primary (missed stored) w s step h =
      Step-Holds state.contract state.primary primary context stored.id stored.accepted_at step h
  after_primary (mirrored stored) w s step h = twice_primary step h
  after_primary (answered (ok receipt)) w s step h = twice_primary step h
  after_primary (answered (err e)) w s step h = tt
  after_primary (answered panic) w s step h = tt

  after_mirror :
      (phase : Phase) (w : World) (t : Session)
      → Step state.contract state.supabase supabase_mirror w.supabase t
      → IsHeld phase w
      → IsHeld phase (record w { supabase = t })
  after_mirror received w t step h = tt
  after_mirror (stored_in_primary stored) w t step h = h
  after_mirror (missed stored) w t step h = h
  after_mirror (mirrored stored) w t step h = twice_mirror step h
  after_mirror (answered (ok receipt)) w t step h = twice_mirror step h
  after_mirror (answered (err e)) w t step h = tt
  after_mirror (answered panic) w t step h = tt

  -- A turn brings the request to what its next phase holds.
  Turn-IsHeld :
      {p q : Phase} {w w' : World} → Turn state context input p w q w' → IsHeld p w → IsHeld q w'
  Turn-IsHeld (store {w = w} h) held =
      stored-Holds state.contract state.primary primary context input w.primary h
  Turn-IsHeld (refuse h) held = tt
  Turn-IsHeld (mirror {w = w} {stored = stored} {copy = copy} h named) held =
      let second =
        stored-Holds state.contract state.supabase supabase_mirror
          (with_canonical_id context stored.id) input w.supabase h in
      record {
        in_primary = held;
        mirrored_at = copy.accepted_at;
        in_mirror = record {
          row = second.row;
          found = second.found;
          paid = second.paid;
          named = second.named ∙ (nat_eq_iff copy.id stored.id).0 named;
          timed = second.timed;
        };
      }
  Turn-IsHeld (miss h r other) held = held
  Turn-IsHeld report held = tt
  Turn-IsHeld (acknowledge {w = w} {stored = stored} {s = s} h) held =
      let left : (mark_mirrored state.primary pre_interest stored.id context.payload_sha256
            w.primary).1
          ≡ s =
        ap (λ x. x.1) h in
      rw (← left) (
        twice_primary (acknowledgement pre_interest stored.id context.payload_sha256 w.primary)
          held)
  Turn-IsHeld (give_up h) held = tt
  Turn-IsHeld (other_primary {phase = p} {w = w} {s = s} step) held = after_primary p w s step held
  Turn-IsHeld (other_mirror {phase = p} {w = w} {t = t} step) held = after_mirror p w t step held

  Run-IsHeld :
      {p : Phase} {w : World} {q : Phase} {w' : World}
      → Run state context input p w q w'
      → IsHeld p w
      → IsHeld q w'
  Run-IsHeld start held = held
  Run-IsHeld (turn r step) held = Turn-IsHeld step (Run-IsHeld r held)

  -- Whatever commands other requests run in between, before and after: when a request has its
  -- receipt, both databases hold its pre-interest, under the key and with the digest of its context
  -- and with the identifier of the receipt, and they go on holding it.
  pub Run-IsHeldTwice :
      {w w' : World} {receipt : SubmissionReceipt}
      → Run state context input received w (answered (ok receipt)) w'
      → IsHeldTwice receipt.submission_id receipt.accepted_at w'
  Run-IsHeldTwice r = Run-IsHeld r tt
