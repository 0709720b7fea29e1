-- ===== src/Persistence/Refinement.antt =====
-- The commands `store_pre_interest`, `store_referral` and `store_application` of
-- src/persistence.rs against the contract `Submits` of a stored submission.
use hhm_api_server_rs.Common.{◌≡◌, refl, none, some, Text, ℤ, arith, ◌⊎◌, inl, inr, Option-cases}
use hhm_api_server_rs.Common.Several.{Several}
use hhm_api_server_rs.Common.Result.{Result, ok, err, panic, lift, map_err, >>=-eq-ok, ◌>>=◌, ◌>>◌}
use hhm_api_server_rs.Persistence.Error.{DataError, validation}
use hhm_api_server_rs.Persistence.Kinds.{PersistenceTarget, pre_interest, application, referral}
use hhm_api_server_rs.Persistence.Context.{SubmissionContext, subject_text, require_subject}
use hhm_api_server_rs.Persistence.Inputs.{
  Contract, PreInterestCreate, ApplicationCreate, ReferralCreate,
}
use hhm_api_server_rs.Persistence.Application.Verified.{Qualifies, require_verified_uploads-eq-ok}
use hhm_api_server_rs.Persistence.Session.Laws.{begun, in_transaction_db}
use hhm_api_server_rs.Persistence.Rows.{Db, pre_interest_table, application_table, referral_table}
use hhm_api_server_rs.Persistence.Session.{
  WriteContext, Session, Command, DatabaseTransaction, tick, in_transaction,
}
use hhm_api_server_rs.Persistence.Submit.{
  StoredSubmission, pre_interest_row, referral_row, store_pre_interest, store_referral,
}
use hhm_api_server_rs.Persistence.Submit.Recorded.{
  Recorded, Submits, submit_body, submit_body-Recorded, in_transaction-Submits, checked-Submits,
}
use hhm_api_server_rs.Persistence.Application.{
  application_row, store_application, require_verified_uploads, to_i16,
}

module _ (contract : Contract) (self : WriteContext) (target : PersistenceTarget)
    (context : SubmissionContext) where
  -- `store_pre_interest`, whatever calls fail.
  pub store_pre_interest-Submits :
      (input : PreInterestCreate)
      → Submits self target pre_interest pre_interest_table context
          (pre_interest_row contract self target context input)
          (store_pre_interest contract self target context input)
  unfolding store_pre_interest
  store_pre_interest-Submits input =
      let values = pre_interest_row contract self target context input in
      checked-Submits self target pre_interest pre_interest_table context values
        (map_err validation (contract.validate_pre_interest input)) _
        λ _ _.
          in_transaction-Submits self target pre_interest pre_interest_table context values _
            (λ tx s stored s'.
              submit_body-Recorded self target pre_interest pre_interest_table context values
                (λ n. refl) (λ db. refl) s)

  -- `store_referral` of a context with the subject `subject`, whatever calls fail.
  pub store_referral-Submits :
      (input : ReferralCreate) (subject : Text)
      → subject_text context.subject ≡ some subject
      → Submits self target referral referral_table context
          (referral_row contract self target context subject input)
          (store_referral contract self target context input)
  unfolding store_referral
  store_referral-Submits input subject known =
      let values = referral_row contract self target context subject input in
      checked-Submits self target referral referral_table context values
        (map_err validation (contract.validate_referral input)) _
        λ _ _.
          checked-Submits self target referral referral_table context values
            (require_subject context) _
            λ found e. rw (known_is found e) (
              in_transaction-Submits self target referral referral_table context values _
                (λ tx s stored s'.
                  submit_body-Recorded self target referral referral_table context values
                    (λ n. refl) (λ db. refl) s))
    where
      known_is : (found : Text) → require_subject context ≡ ok found → found ≡ subject
      known_is found e = ground (arith, known)

  module _ (input : ApplicationCreate) where
    -- The uploads that an application needs at the time of its transaction.
    abbrev HasUploads : DatabaseTransaction → Db → Type 0
    HasUploads tx db = Several (Qualifies context input (self.timestamp tx.started)) 2 db.uploads

    application_body :
        (tx : DatabaseTransaction) (s : Session) (occupancy : ℤ) (stored : StoredSubmission)
        (s' : Session)
        → (require_verified_uploads self context input tx
              >> submit_body self target application application_table context
                  (application_row contract self target context input occupancy))
            s
          ≡ (ok stored, s')
        → HasUploads tx s.db
          × Recorded self target application application_table context
              (application_row contract self target context input occupancy)
              s.db
              stored
              s'.db
    application_body tx s occupancy stored s' h =
        let values = application_row contract self target context input occupancy in
        let (_, t, checked, rest) =
          >>=-eq-ok (require_verified_uploads self context input tx) _ s h in
        let (same, uploads) = require_verified_uploads-eq-ok self context input tx s checked in
        (
          uploads,
          rw (← same) (
              submit_body-Recorded self target application application_table context values
                (λ n. refl) (λ db. refl) t rest),
        )

    -- `store_application` of an occupancy that fits in 16 bits, whatever calls fail.
    pub store_application-Submits :
        (occupancy : ℤ)
        → to_i16 input.preferred_room_occupancy ≡ ok occupancy
        → Submits self target application application_table context
            (application_row contract self target context input occupancy)
            (store_application contract self target context input)
    unfolding store_application
    store_application-Submits occupancy fits =
        let values = application_row contract self target context input occupancy in
        checked-Submits self target application application_table context values
          (map_err validation (contract.validate_application input)) _
          λ _ _.
            checked-Submits self target application application_table context values
              (to_i16 input.preferred_room_occupancy) _
              λ found e. rw (same found e) (
                in_transaction-Submits self target application application_table context values _
                  (λ tx s stored s' h. (application_body tx s occupancy stored s' h).1))
      where
        same : (found : ℤ) → to_i16 input.preferred_room_occupancy ≡ ok found → found ≡ occupancy
        same found e = ground (arith, fits)

  -- A check in front of a command: what holds of the database before and of what the command leaves
  -- where the check passes, holds.
  checked_db :
      {A : Type 0} (check : Result DataError A) (rest : A → Command StoredSubmission) (s : Session)
      (Q : Db → Type 0)
      → Q s.db
      → ((a : A) → check ≡ ok a → Q (rest a s).1.db)
      → Q ((lift check >>= rest) s).1.db
  checked_db (ok a) rest s Q old new = new a refl
  checked_db (err e) rest s Q old new = old
  checked_db panic rest s Q old new = old

  -- A referral without a subject is refused before the database is asked.
  anonymous_referral :
      (input : ReferralCreate) (s : Session)
      → subject_text context.subject ≡ none
      → (store_referral contract self target context input s).1.db ≡ s.db
  unfolding store_referral
  anonymous_referral input s missing =
      let Q = λ (db : Db). db ≡ s.db in
      checked_db (map_err validation (contract.validate_referral input)) _ s Q refl λ _ _.
        checked_db (require_subject context) _ s Q refl λ a e. absurd (ground (arith, missing, e))

  -- Whatever calls fail, a referral changes nothing, or there is a subject and the effect is that of
  -- an accepted referral by it.
  pub store_referral_atomic :
      (input : ReferralCreate) (s : Session)
      → ((store_referral contract self target context input s).1.db ≡ s.db)
        ⊎ ((subject : Text) × (a : StoredSubmission) × (subject_text context.subject ≡ some subject)
            × Recorded self target referral referral_table context
                (referral_row contract self target context subject input)
                s.db
                a
                (store_referral contract self target context input s).1.db)
  store_referral_atomic input s = elim (Option-cases (subject_text context.subject)) [
    | inl missing ↦ inl (anonymous_referral input s missing)
    | inr (subject, known) ↦ elim ((store_referral-Submits input subject known).atomic s) [
      | inl same ↦ inl same
      | inr (a, r) ↦ inr (subject, a, known, r)
    ]
  ]

  -- The effect of an accepted application on the database of the session.
  abbrev pub Applied : ApplicationCreate → Session → Db → Type 0
  Applied input s db' =
      (occupancy : ℤ) × (a : StoredSubmission) × (to_i16 input.preferred_room_occupancy
        ≡ ok occupancy)
      × Several (Qualifies context input (self.timestamp s.calls)) 2 s.db.uploads
      × Recorded self target application application_table context
          (application_row contract self target context input occupancy) s.db a db'

  -- The transaction of an application.
  application_transaction :
      (input : ApplicationCreate) (occupancy : ℤ)
      → to_i16 input.preferred_room_occupancy ≡ ok occupancy
      → (s : Session)
      → let run =
          in_transaction self
            (λ tx.
              require_verified_uploads self context input tx
              >> submit_body self target application application_table context
                  (application_row contract self target context input occupancy))
            s in
        (run.1.db ≡ s.db) ⊎ Applied input s run.1.db
  application_transaction input occupancy fits s =
      in_transaction_db self _ s (λ db. (db ≡ s.db) ⊎ Applied input s db) (inl refl)
        λ a e.
          let (uploads, r) = application_body input (begun s) (tick s) occupancy a _ (λ i. (
            e i,
            ((require_verified_uploads self context input (begun s)
                  >> submit_body self target application application_table context
                      (application_row contract self target context input occupancy))
                (tick s)).1,
          )) in
          inr (occupancy, a, fits, uploads, r)

  -- Whatever calls fail, an application changes nothing, or its occupancy fits in 16 bits, two
  -- uploads of its subject are verified and not expired, each the résumé or the photo identity
  -- document that it names, and the effect is that of an accepted application.
  pub store_application_atomic :
      (input : ApplicationCreate) (s : Session)
      → ((store_application contract self target context input s).1.db ≡ s.db)
        ⊎ Applied input s (store_application contract self target context input s).1.db
  unfolding store_application
  store_application_atomic input s =
      let Q = λ (db : Db). (db ≡ s.db) ⊎ Applied input s db in
      checked_db (map_err validation (contract.validate_application input)) _ s Q (inl refl) λ _ _.
        checked_db (to_i16 input.preferred_room_occupancy) _ s Q (inl refl)
          λ occupancy fits. application_transaction input occupancy fits s

  -- Whatever calls fail, a pre-interest changes nothing or has the effect of an accepted one: a new
  -- row with its outbox entry in the primary, or a replay that changes nothing.
  pub store_pre_interest_atomic :
      (input : PreInterestCreate) (s : Session)
      → ((store_pre_interest contract self target context input s).1.db ≡ s.db)
        ⊎ ((a : StoredSubmission) × Recorded self target pre_interest pre_interest_table context
              (pre_interest_row contract self target context input)
              s.db
              a
              (store_pre_interest contract self target context input s).1.db)
  store_pre_interest_atomic input s = (store_pre_interest-Submits input).atomic s
