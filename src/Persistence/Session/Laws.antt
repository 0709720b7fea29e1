-- ===== src/Persistence/Session/Laws.antt =====
-- What a transaction does to the database, whatever calls fail.
use hhm_api_server_rs.Common.{◌≡◌, refl, arith}
use hhm_api_server_rs.Common.Result.{Result, ok, err, panic}
use hhm_api_server_rs.Persistence.Error.{DataError}
use hhm_api_server_rs.Persistence.Rows.{Db}
use hhm_api_server_rs.Persistence.Session.{
  Fault, fine, refused, unacknowledged, WriteContext, Session, Command, DatabaseTransaction, tick,
  commit, finish, opened, in_transaction,
}

-- The transaction that begins in a session.
abbrev pub begun : Session → DatabaseTransaction
begun s = record { started = s.calls; snapshot = s.db }

module _ {A : Type 0} where
  commit-eq-ok :
      (f : Fault) (tx : DatabaseTransaction) (a : A) (s : Session) {b : A} {s' : Session}
      → commit f tx a s ≡ (ok b, s')
      → (a ≡ b) × (s'.db ≡ s.db)
  commit-eq-ok f tx a s h = ground arith

  -- The commit keeps the work of the body, or brings the snapshot back.
  commit_db :
      (P : Db → Type 0) (f : Fault) (tx : DatabaseTransaction) (a : A) (s : Session)
      → P tx.snapshot
      → P s.db
      → P (commit f tx a s).1.db
  commit_db P fine tx a s old new = new
  commit_db P refused tx a s old new = old
  commit_db P unacknowledged tx a s old new = new

module _ (self : WriteContext) {A : Type 0} where
  finish-eq-ok :
      (tx : DatabaseTransaction) (r : Result DataError A) (s : Session) {b : A} {s' : Session}
      → finish self tx r s ≡ (ok b, s')
      → (r ≡ ok b) × (s'.db ≡ s.db)
  finish-eq-ok tx (ok a) s h = ground (arith, commit-eq-ok (self.outcome s.calls) tx a s h)
  finish-eq-ok tx (err e) s h = cc
  finish-eq-ok tx panic s h = cc

  finish_db :
      (P : Db → Type 0) (tx : DatabaseTransaction) (r : Result DataError A) (s : Session)
      → P tx.snapshot
      → ((a : A) → r ≡ ok a → P s.db)
      → P (finish self tx r s).1.db
  finish_db P tx (ok a) s old new = commit_db P (self.outcome s.calls) tx a s old (new a refl)
  finish_db P tx (err e) s old new = old
  finish_db P tx panic s old new = old

  module _ (body : DatabaseTransaction → Command A) (s : Session) where
    opened-eq-ok :
        (f : Fault) {b : A} {s' : Session}
        → opened self f body s ≡ (ok b, s')
        → ((body (begun s) (tick s)).0 ≡ ok b) × (s'.db ≡ (body (begun s) (tick s)).1.db)
    opened-eq-ok fine h = finish-eq-ok (begun s) _ _ h
    opened-eq-ok refused h = cc
    opened-eq-ok unacknowledged h = cc

    -- A transaction that returned a value left what its body left.
    pub in_transaction-eq-ok :
        {b : A} {s' : Session}
        → in_transaction self body s ≡ (ok b, s')
        → ((body (begun s) (tick s)).0 ≡ ok b) × (s'.db ≡ (body (begun s) (tick s)).1.db)
    unfolding in_transaction
    in_transaction-eq-ok h = opened-eq-ok (self.outcome s.calls) h

    opened_db :
        (P : Db → Type 0) (f : Fault)
        → P s.db
        → ((a : A) → (body (begun s) (tick s)).0 ≡ ok a → P (body (begun s) (tick s)).1.db)
        → P (opened self f body s).1.db
    opened_db P fine old new = finish_db P (begun s) _ _ old new
    opened_db P refused old new = old
    opened_db P unacknowledged old new = old

    -- Whatever fails, the database is the one before or the one that a body that succeeded left.
    pub in_transaction_db :
        (P : Db → Type 0)
        → P s.db
        → ((a : A) → (body (begun s) (tick s)).0 ≡ ok a → P (body (begun s) (tick s)).1.db)
        → P (in_transaction self body s).1.db
    unfolding in_transaction
    in_transaction_db P old new = opened_db P (self.outcome s.calls) old new
