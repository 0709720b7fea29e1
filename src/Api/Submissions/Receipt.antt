-- ===== src/Api/Submissions/Receipt.antt =====
-- src/api.rs: what stands behind a receipt of the three submission handlers.
use hhm_api_server_rs.Common.{◌≡◌, sym, ap, ◌∙◌, Option, some, Text-Eq, ℕ-Eq, arith, Bool-cases}
use hhm_api_server_rs.Common.Result.{
  Result, ok, err, panic, map_err-eq-ok, pure, ◌>>=◌, >>=-eq-ok, pure-eq-ok,
}
use hhm_api_server_rs.Persistence.Error.{DataError}
use hhm_api_server_rs.Persistence.Kinds.{
  PersistenceTarget, primary, supabase_mirror, StoredSubmissionKind,
}
use hhm_api_server_rs.Persistence.Context.{SubmissionContext, with_canonical_id}
use hhm_api_server_rs.Persistence.Session.{Session, Command}
use hhm_api_server_rs.Persistence.Submit.{StoredSubmission}
use hhm_api_server_rs.Persistence.Outbox.{mark_mirrored}
use hhm_api_server_rs.Api.Failure.{ApiFailure, mirror_unavailable, from_data}
use hhm_api_server_rs.Api.State.{
  AppState, World, Handler, on_primary, on_supabase, or_fail, attempt, caught,
}
use hhm_api_server_rs.Api.Submissions.{
  SubmissionReceipt, finish_submission, mirrored_as, settle_submission, persist_both,
}

module _ {A : Type 0} where
  caught-eq-ok :
      (r : Result DataError A) {o : Option A} {a : A} → caught r ≡ ok o → o ≡ some a → r ≡ ok a
  caught-eq-ok (ok a) h e = ap ok (ground (arith, h, e))
  caught-eq-ok (err x) h e = ground arith
  caught-eq-ok panic h e = cc

module _ {A B : Type 0} where
  -- What follows a command on the primary, in a handler that returned a value.
  pub on_primary-eq-ok :
      (f : DataError → ApiFailure) (m : Command A) (k : A → Handler B) (w : World) {b : B}
      {w' : World}
      → (or_fail f (on_primary m) >>= k) w ≡ (ok b, w')
      → (a : A) × (m w.primary ≡ (ok a, (m w.primary).1))
        × (k a (record w { primary = (m w.primary).1 }) ≡ (ok b, w'))
  on_primary-eq-ok f m k w h =
      let (a, t, first, rest) = >>=-eq-ok (or_fail f (on_primary m)) k w h in
      let returned = map_err-eq-ok f (m w.primary).0 (ap (λ x. x.0) first) in
      (
        a,
        (λ i. (returned i, (m w.primary).1)),
        ap (λ (x : World). k a x) (ap (λ x. x.1) first) ∙ rest,
      )

  -- The same for the mirror.
  pub on_supabase-eq-ok :
      (f : DataError → ApiFailure) (m : Command A) (k : A → Handler B) (w : World) {b : B}
      {w' : World}
      → (or_fail f (on_supabase m) >>= k) w ≡ (ok b, w')
      → (a : A) × (m w.supabase ≡ (ok a, (m w.supabase).1))
        × (k a (record w { supabase = (m w.supabase).1 }) ≡ (ok b, w'))
  on_supabase-eq-ok f m k w h =
      let (a, t, first, rest) = >>=-eq-ok (or_fail f (on_supabase m)) k w h in
      let returned = map_err-eq-ok f (m w.supabase).0 (ap (λ x. x.0) first) in
      (
        a,
        (λ i. (returned i, (m w.supabase).1)),
        ap (λ (x : World). k a x) (ap (λ x. x.1) first) ∙ rest,
      )

  -- What follows a command on the mirror whose error is inspected.
  pub attempt-eq-ok :
      (m : Command A) (k : Option A → Handler B) (w : World) {b : B} {w' : World}
      → (attempt (on_supabase m) >>= k) w ≡ (ok b, w')
      → (o : Option A) × ((a : A) → o ≡ some a → m w.supabase ≡ (ok a, (m w.supabase).1))
        × (k o (record w { supabase = (m w.supabase).1 }) ≡ (ok b, w'))
  attempt-eq-ok m k w h =
      let (o, t, first, rest) = >>=-eq-ok (attempt (on_supabase m)) k w h in
      (
        o,
        (λ a e i. (caught-eq-ok (m w.supabase).0 (ap (λ x. x.0) first) e i, (m w.supabase).1)),
        ap (λ (x : World). k o x) (ap (λ x. x.1) first) ∙ rest,
      )

module _ (state : AppState) (kind : StoredSubmissionKind) (context : SubmissionContext)
    (store : PersistenceTarget → SubmissionContext → Command StoredSubmission) where
  -- The calls behind a receipt: the primary and the mirror stored the submission under one
  -- identifier, then the primary was told so.
  pub record Persisted (w : World) (receipt : SubmissionReceipt) (w' : World) : Type 0 where
    pub stored : StoredSubmission
    pub mirrored : StoredSubmission
    pub between : Session
    pub first : store primary context w.primary ≡ (ok stored, between)
    pub second :
        store supabase_mirror (with_canonical_id context stored.id) w.supabase
        ≡ (ok mirrored, w'.supabase)
    pub one_id : mirrored.id ≡ stored.id
    pub marked :
        mark_mirrored state.primary kind stored.id context.payload_sha256 between
        ≡ (ok tt, w'.primary)
    pub is :
        receipt
        ≡ record { submission_id = stored.id; kind = kind; accepted_at = stored.accepted_at }

  settled :
      (stored : StoredSubmission) (o : Option StoredSubmission) (w : World)
      {receipt : SubmissionReceipt} {w' : World}
      → settle_submission state kind context stored o w ≡ (ok receipt, w')
      → (m : StoredSubmission) × (o ≡ some m)
        × (m.id ≡ stored.id)
        × (finish_submission state kind context stored w ≡ (ok receipt, w'))
  unfolding settle_submission
  settled stored o w h = ground (arith, Bool-cases (mirrored_as stored.id o))

  finished :
      (stored : StoredSubmission) (w : World) {receipt : SubmissionReceipt} {w' : World}
      → finish_submission state kind context stored w ≡ (ok receipt, w')
      → (mark_mirrored state.primary kind stored.id context.payload_sha256 w.primary
          ≡ (ok tt, w'.primary))
        × (w'.supabase ≡ w.supabase)
        × (receipt
            ≡ record { submission_id = stored.id; kind = kind; accepted_at = stored.accepted_at })
  unfolding finish_submission
  finished stored w h =
      let (_, marked, last) =
        on_primary-eq-ok (λ _. mirror_unavailable stored.id)
          (mark_mirrored state.primary kind stored.id context.payload_sha256)
          (λ _.
            pure
              (record { submission_id = stored.id; kind = kind; accepted_at = stored.accepted_at }))
          w h in
      let (same, after) = pure-eq-ok last in
      (marked ∙ (λ i. (ok tt, (after i).primary)), ap (λ x. x.supabase) (sym after), sym same)

  pub persist_both-eq-ok :
      (w : World) {receipt : SubmissionReceipt} {w' : World}
      → persist_both state kind context store w ≡ (ok receipt, w')
      → Persisted w receipt w'
  unfolding persist_both
  persist_both-eq-ok w h =
      let mirror = λ (stored : StoredSubmission).
        store supabase_mirror (with_canonical_id context stored.id) in
      let (stored, first, h1) =
        on_primary-eq-ok from_data (store primary context)
          (λ stored.
            attempt (on_supabase (mirror stored)) >>= settle_submission state kind context stored)
          w h in
      let (o, second, h2) =
        attempt-eq-ok (mirror stored) (settle_submission state kind context stored) _ h1 in
      let (m, there, same, last) = settled stored o _ h2 in
      let (marked, kept, is) = finished stored _ last in
      record {
        stored = stored;
        mirrored = m;
        between = (store primary context w.primary).1;
        first = first;
        second = second m there ∙ (λ i. (ok m, sym kept i));
        one_id = same;
        marked = marked;
        is = is;
      }
