-- ===== src/Api/State.antt =====
-- src/api.rs: `AppState` as the capabilities that a handler has, and the two databases that its
-- commands change.
use hhm_api_server_rs.Common.{Option, none, some, Text}
use hhm_api_server_rs.Common.Result.{Result, ok, err, panic, Exec, map_err}
use hhm_api_server_rs.Http.{Url, Outside}
use hhm_api_server_rs.Persistence.Error.{DataError}
use hhm_api_server_rs.Persistence.Inputs.{Contract}
use hhm_api_server_rs.Persistence.Session.{WriteContext, Session, Command}
use hhm_api_server_rs.Api.Failure.{ApiFailure}

-- The configured values that the authenticator, the Turnstile verifier and the storage client
-- hold, beside the two connections.
pub record AppState : Type 0 where
  pub primary : WriteContext
  pub supabase : WriteContext
  pub audience : Text
  pub expected_action : Text
  pub project_url : Url
  pub contract : Contract
  pub outside : Outside

pub record World : Type 0 where
  pub primary : Session
  pub supabase : Session

abbrev pub Handler : Type 0 → Type 0
Handler A = Exec World ApiFailure A

module _ {A : Type 0} where
  abbrev pub on_primary : Command A → Exec World DataError A
  on_primary m w = ((m w.primary).0, record w { primary = (m w.primary).1 })

  abbrev pub on_supabase : Command A → Exec World DataError A
  on_supabase m w = ((m w.supabase).0, record w { supabase = (m w.supabase).1 })

  -- `.map_err(…)?` on a command.
  abbrev pub or_fail : (DataError → ApiFailure) → Exec World DataError A → Handler A
  or_fail f m w = (map_err f (m w).0, (m w).1)

  abbrev pub caught : Result DataError A → Result ApiFailure (Option A)
  caught (ok a) = ok (some a)
  caught (err e) = ok none
  caught panic = panic

  -- A command whose error the handler inspects instead of returning it.
  abbrev pub attempt : Exec World DataError A → Handler (Option A)
  attempt m w = (caught (m w).0, (m w).1)
