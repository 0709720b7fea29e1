-- ===== src/Persistence/Outbox/Healthy.antt =====
-- What an acknowledgement answers where no call to the database fails.
use hhm_api_server_rs.Common.{
  ℕ, ◌+◌, ◌≡◌, refl, ◌∙◌, inl, inr, Bool, true, Option, some, String, Text, count_where, Bool-cases,
}
use hhm_api_server_rs.Common.Result.{ok}
use hhm_api_server_rs.Persistence.Kinds.{StoredSubmissionKind}
use hhm_api_server_rs.Persistence.Context.{Uuid}
use hhm_api_server_rs.Persistence.Rows.{OutboxRow}
use hhm_api_server_rs.Persistence.Session.{fine, WriteContext, Session, statement, tick}
use hhm_api_server_rs.Persistence.Healthy.{in_transaction_healthy}
use hhm_api_server_rs.Persistence.Outbox.{
  is_upload, update_status, is_settled_entry, update_submission, update_entry, mirrored_entry,
  mark_mirrored,
}
use hhm_api_server_rs.Persistence.Outbox.Laws.{OneChanged, outbox-update_status}

module _ (self : WriteContext) (healthy : (n : ℕ) → self.outcome n ≡ fine)
    (decodable : (n : ℕ) (column : String) → self.decodes n column ≡ true)
    (kind : StoredSubmissionKind) (id : Uuid) where
  update_submission_healthy :
      (status : String) (payload : Option Text) (s : Session)
      → OneChanged kind (update_status kind status id payload s.db).0
      → (s' : Session) × (update_submission self kind id status payload s ≡ (ok tt, s'))
        × (s'.db.outbox ≡ s.db.outbox)
  unfolding update_submission statement
  update_submission_healthy status payload s (inl up) = (s, rw up refl, refl)
  update_submission_healthy status payload s (inr one) = elim (Bool-cases (is_upload kind)) [
    | inl up ↦ (s, rw up refl, refl)
    | inr other ↦ (
      record { db = (update_status kind status id payload s.db).1; calls = s.calls + 1 },
      rw (other, healthy s.calls, one) refl,
      outbox-update_status kind id status payload s.db,
    )
  ]

  update_entry_healthy :
      (test : OutboxRow → Bool) (change : OutboxRow → OutboxRow) (s : Session)
      → count_where test s.db.outbox ≡ 1
      → (update_entry self kind id test change s).0 ≡ ok tt
  unfolding update_entry statement
  update_entry_healthy test change s one = rw (healthy s.calls, one) refl

  -- An acknowledgement succeeds where it names one row and one entry.
  pub mark_mirrored_healthy :
      (payload : Text) (s : Session)
      → OneChanged kind (update_status kind "mirrored" id (some payload) s.db).0
      → count_where (is_settled_entry kind id payload) s.db.outbox ≡ 1
      → (mark_mirrored self kind id payload s).0 ≡ ok tt
  unfolding mark_mirrored
  mark_mirrored_healthy payload s rows entry =
      let (s', changed, box) = update_submission_healthy "mirrored" (some payload) (tick s) rows in
      in_transaction_healthy self healthy decodable _ s
      ∙ rw changed
          (update_entry_healthy (is_settled_entry kind id payload) mirrored_entry s' (rw box entry))
