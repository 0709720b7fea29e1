-- ===== src/Api/Health.antt =====
-- src/api.rs: the two probes, and `WriteContext::ping` of src/persistence.rs.
pub mod Laws
use hhm_api_server_rs.Common.{ℕ, String}
use hhm_api_server_rs.Common.Result.{Result, ok, err, panic, Exec, map_err, pure, ◌>>=◌}
use hhm_api_server_rs.Persistence.Error.{DataError}
use hhm_api_server_rs.Persistence.Session.{WriteContext, Command, statement}
use hhm_api_server_rs.Api.Failure.{ApiFailure, from_data}
use hhm_api_server_rs.Api.State.{AppState, World, Handler, on_primary, on_supabase, or_fail}

pub record Health : Type 0 where
  pub service : String
  pub status : String

-- `SELECT 1`.
unfoldable pub ping : WriteContext → Command (Unit {0})
ping self = statement self (λ _ db. (tt, db))

abbrev pub health : Health
health = record { service = "hhm-api"; status = "ok" }

-- `try_join!` starts both pings and returns an error as soon as one fails.
abbrev pub try_join :
    Result DataError (Unit {0}) → Result DataError (Unit {0}) → Result DataError (Unit {0})
try_join (ok _) r = r
try_join (err e) r = err e
try_join panic r = panic

unfoldable pub readiness : AppState → Handler Health
unfolding ping
readiness state w =
    let primary = on_primary (ping state.primary) w in
    let supabase = on_supabase (ping state.supabase) primary.1 in
    (
      elim (map_err from_data (try_join primary.0 supabase.0)) [
        | ok _ ↦ ok (record { service = "hhm-api"; status = "ready" })
        | err e ↦ err e
        | panic ↦ panic
      ],
      supabase.1,
    )
