-- ===== src/Api/Health/Laws.antt =====
-- src/api.rs: what the readiness probe tells.
use hhm_api_server_rs.Common.{◌≡◌, ◌≢◌, refl}
use hhm_api_server_rs.Common.Result.{Result, ok, err, panic, map_err}
use hhm_api_server_rs.Persistence.Session.{
  Fault, fine, refused, unacknowledged, Session, settle, statement,
}
use hhm_api_server_rs.Api.Failure.{ApiFailure, from_data, persistence_unavailable}
use hhm_api_server_rs.Api.State.{AppState, World}
use hhm_api_server_rs.Api.Health.{Health, ping, try_join, readiness}

-- The answer of the probe, by how the pings of the two databases end.
pub data Probe (primary supabase : Fault) : Result ApiFailure Health → Type 0 where
  up :
      primary ≡ fine
      → supabase ≡ fine
      → Probe primary supabase (ok (record { service = "hhm-api"; status = "ready" }))
  primary_down : primary ≢ fine → Probe primary supabase (err persistence_unavailable)
  supabase_down : supabase ≢ fine → Probe primary supabase (err persistence_unavailable)

settle-Probe :
    (p q : Fault) (s t : Session)
    → Probe p q
        (elim (map_err from_data (try_join (settle p (tt, s.db) s).0 (settle q (tt, t.db) t).0)) [
          | ok _ ↦ ok (record { service = "hhm-api"; status = "ready" })
          | err e ↦ err e
          | panic ↦ panic
        ])
      × ((settle {A = Unit {0}} p (tt, s.db) s).1.db ≡ s.db)
      × ((settle {A = Unit {0}} q (tt, t.db) t).1.db ≡ t.db)
settle-Probe fine fine s t = (up refl refl, refl, refl)
settle-Probe fine refused s t = (supabase_down (λ e. cc), refl, refl)
settle-Probe fine unacknowledged s t = (supabase_down (λ e. cc), refl, refl)
settle-Probe refused fine s t = (primary_down (λ e. cc), refl, refl)
settle-Probe refused refused s t = (primary_down (λ e. cc), refl, refl)
settle-Probe refused unacknowledged s t = (primary_down (λ e. cc), refl, refl)
settle-Probe unacknowledged fine s t = (primary_down (λ e. cc), refl, refl)
settle-Probe unacknowledged refused s t = (primary_down (λ e. cc), refl, refl)
settle-Probe unacknowledged unacknowledged s t = (primary_down (λ e. cc), refl, refl)

-- The service is ready where both databases answer, otherwise persistence is unavailable, and the
-- probe changes neither database.
pub readiness-Probe :
    (state : AppState) (w : World)
    → Probe
        (state.primary.outcome w.primary.calls)
        (state.supabase.outcome w.supabase.calls)
        (readiness state w).0
      × ((readiness state w).1.primary.db ≡ w.primary.db)
      × ((readiness state w).1.supabase.db ≡ w.supabase.db)
unfolding readiness ping statement
readiness-Probe state w =
    settle-Probe (state.primary.outcome w.primary.calls) (state.supabase.outcome w.supabase.calls)
      w.primary w.supabase
