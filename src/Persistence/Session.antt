-- ===== src/Persistence/Session.antt =====
-- The connection behind `WriteContext`: statements, transactions, and what can go wrong with them.
pub mod Laws
use hhm_api_server_rs.Common.{ℕ, ◌+◌, Bool, String, Option, none, some, if◌then◌else◌}
use hhm_api_server_rs.Common.Result.{Result, ok, err, panic, Exec}
use hhm_api_server_rs.Persistence.Error.{DataError, database, decode}
use hhm_api_server_rs.Persistence.Rows.{Db, OutboxRow}

-- How one round trip to the database ends. A call that is `unacknowledged` took effect, and the
-- client was not told.
pub data Fault : Type 0 where
  fine refused unacknowledged : Fault

-- A database connection, by the number of the call that is made on it. Which calls fail, which
-- columns of a result cannot be decoded, and the times that the server reads are the
-- environment's choice.
pub record WriteContext : Type 0 where
  pub outcome : ℕ → Fault
  pub decodes : ℕ → String → Bool
  -- `transaction_timestamp()` in a transaction that began at this call
  pub timestamp : ℕ → ℕ
  -- the schema's defaults in an insert at this call
  pub accepted_default : ℕ → ℕ
  pub attempts_default : ℕ
  pub status_default : String
  pub next_attempt_default : ℕ → ℕ

-- The database, and the number of calls made on it so far.
pub record Session : Type 0 where
  pub db : Db
  pub calls : ℕ

abbrev pub Command : Type 0 → Type 0
Command A = Exec Session DataError A

abbrev pub tick : Session → Session
tick s = record s { calls = s.calls + 1 }

-- A row of a result, with the number of the call that returned it.
pub record QueryResult (A : Type 0) : Type 0 where
  pub call : ℕ
  pub columns : A

-- A transaction: the call that began it, and the database at that time.
pub record DatabaseTransaction : Type 0 where
  pub started : ℕ
  pub snapshot : Db

module _ {A : Type 0} where
  abbrev pub settle : Fault → A × Db → Session → Result DataError A × Session
  settle fine r s = (ok r.0, record { db = r.1; calls = s.calls + 1 })
  settle refused r s = (err database, tick s)
  settle unacknowledged r s = (err database, record { db = r.1; calls = s.calls + 1 })

  abbrev pub commit : Fault → DatabaseTransaction → A → Session → Result DataError A × Session
  commit fine tx a s = (ok a, tick s)
  commit refused tx a s = (err database, record { db = tx.snapshot; calls = s.calls + 1 })
  commit unacknowledged tx a s = (err database, tick s)

  abbrev pub mark : ℕ → Option A → Option (QueryResult A)
  mark call none = none
  mark call (some a) = some (record { call = call; columns = a })

module _ (self : WriteContext) {A : Type 0} where
  -- One SQL statement, a function of the call's number and the database. `execute_raw` returns the
  -- rows affected.
  unfoldable pub statement : (ℕ → Db → A × Db) → Command A
  statement f s = settle (self.outcome s.calls) (f s.calls s.db) s

  -- `query_one_raw`: at most one row.
  unfoldable pub query_one : (ℕ → Db → Option A × Db) → Command (Option (QueryResult A))
  query_one f s =
      settle (self.outcome s.calls) (mark s.calls (f s.calls s.db).0, (f s.calls s.db).1) s

  -- `read_uuid`, `read_string`, `read_timestamp` and `try_get`: one column of a result.
  abbrev pub read : ℕ → String → A → Result DataError A
  read call column a = if self.decodes call column then ok a else err decode

  -- A transaction that is dropped before its commit is rolled back.
  abbrev pub finish :
      DatabaseTransaction → Result DataError A → Session → Result DataError A × Session
  finish tx (ok a) s = commit (self.outcome s.calls) tx a s
  finish tx (err e) s = (err e, record s { db = tx.snapshot })
  finish tx panic s = (panic, record s { db = tx.snapshot })

  abbrev pub opened :
      Fault → (DatabaseTransaction → Command A) → Session → Result DataError A × Session
  opened fine body s =
      let tx : DatabaseTransaction = record { started = s.calls; snapshot = s.db } in
      finish tx (body tx (tick s)).0 (body tx (tick s)).1
  opened refused body s = (err database, tick s)
  opened unacknowledged body s = (err database, tick s)

  -- `begin`, the body, `commit`, and the body's value.
  unfoldable pub in_transaction : (DatabaseTransaction → Command A) → Command A
  in_transaction body s = opened (self.outcome s.calls) body s
