-- ===== src/Startup.antt =====
-- src/main.rs and src/lib.rs, with the constructors of src/api.rs and src/external.rs: from the
-- resolved configuration to the server.
pub mod Served
pub mod Laws
use hhm_api_server_rs.Common.{
  ℕ, Bool, true, false, not, Option, none, some, String, List, Text, codes, if◌then◌else◌,
}
use hhm_api_server_rs.Common.Result.{Result, ok, err, panic, and_then, map_err, ok_or}
use hhm_api_server_rs.Common.Maps.{BTreeMap}
use hhm_api_server_rs.Http.{Url, Outside}
use hhm_api_server_rs.Settings.{Lookup, Parsers, SocketAddr}
use hhm_api_server_rs.Config.{Config, ConfigError, config_from_lookup}
use hhm_api_server_rs.Policy.Stack.{Middleware, StackError, stack_from_policy}
use hhm_api_server_rs.Flags.{FlagsError}
use hhm_api_server_rs.Flags.Process.{TomlTable, Toml, VarError, process_control, var}
use hhm_api_server_rs.Auth.Build.{Authenticator, AuthBuildError, authenticator_from_config}
use hhm_api_server_rs.Api.Cors.{Uri, CorsError}
use hhm_api_server_rs.Api.Routes.{Router, router}
use hhm_api_server_rs.Api.State.{AppState}
use hhm_api_server_rs.Persistence.Inputs.{Contract}
use hhm_api_server_rs.Persistence.Session.{WriteContext}

-- The fields of the two clients of src/external.rs beside their HTTP client.
pub record TurnstileVerifier : Type 0 where
  pub secret : Text
  pub expected_action : Text

pub record SupabaseStorage : Type 0 where
  pub project_url : Url
  pub service_role_key : Text

abbrev pub turnstile_from_config : Config → TurnstileVerifier
turnstile_from_config config = record {
  secret = config.turnstile_secret_key;
  expected_action = config.turnstile_action;
}

abbrev pub storage_from_config : Config → SupabaseStorage
storage_from_config config = record {
  project_url = config.supabase_url;
  service_role_key = config.supabase_service_role_key;
}

-- The other crates and the system at start-up. `outside` is what the services answer to the
-- clients that are built.
pub record Platform (S : Type 0) : Type 0 where
  pub parsers : Parsers
  pub middleware : Middleware S
  pub contract : Contract
  pub builds_client : Bool
  pub builds_auth_client : Bool
  pub connect : Text → Option WriteContext
  pub outside : Authenticator → TurnstileVerifier → SupabaseStorage → Outside
  pub parse_uri : Text → Option Uri
  pub parse_header : Text → Option Text
  pub binds : SocketAddr → Bool
  pub parses_filter : Text → Bool
  pub parse_table : Text → Result Text TomlTable
  pub display : Toml → Text
  pub cli_flags : Text

pub data StartError : Type 0 where
  transport connection bind log_filter : StartError
  auth : AuthBuildError → StartError
  lifecycle : StackError → StartError
  cors : CorsError → StartError
  flags : FlagsError → StartError
  configuration : ConfigError → StartError

-- What `axum::serve` is given: the router, the lifecycle around it, and the address of the listener.
pub record Server (S : Type 0) : Type 0 where
  pub router : Router
  pub stack : S
  pub address : SocketAddr

-- How `main` ends without an error: with an output, or at a server.
pub data Exit (S : Type 0) : Type 0 where
  printed : Text → Exit S
  served : Server S → Exit S

abbrev pub to_lookup : {E : Type 0} → (Text → Result E Text) → Lookup
to_lookup read name = elim (read (codes name)) [ ok value ↦ some value | _ ↦ none ]

module _ {S : Type 0} (platform : Platform S) where
  -- `AppState::from_config`.
  unfoldable pub app_state_from_config : Config → Result StartError AppState
  app_state_from_config config =
      if not platform.builds_client
      then err transport
      else and_then (ok_or connection (platform.connect config.primary_database_url)) λ primary.
        and_then (ok_or connection (platform.connect config.supabase_database_url)) λ supabase.
          and_then
            (map_err auth
              (authenticator_from_config platform.parsers platform.builds_auth_client config))
            λ authenticator.
              let turnstile = turnstile_from_config config in
              let storage = storage_from_config config in
              ok (record {
                primary = primary;
                supabase = supabase;
                audience = authenticator.audience;
                expected_action = turnstile.expected_action;
                project_url = storage.project_url;
                contract = platform.contract;
                outside = platform.outside authenticator turnstile storage;
              })

  -- `serve`, up to the loop of the server.
  unfoldable pub serve : Config → Result StartError (Server S)
  unfolding app_state_from_config
  serve loaded = and_then (app_state_from_config loaded) λ state.
      and_then (map_err lifecycle (stack_from_policy platform.middleware loaded.request_policy))
        λ stack.
          and_then
            (map_err cors
              (router platform.parse_uri platform.parse_header state loaded.cors_origins))
            λ routed.
              if not (platform.binds loaded.bind_address)
              then err bind
              else ok (record { router = routed; stack = stack; address = loaded.bind_address })

  -- `flags::var("RUST_LOG").unwrap_or_else(…)`.
  abbrev pub filter_or_default : Result VarError Text → Result StartError Text
  filter_or_default (ok value) = ok value
  filter_or_default (err e) = ok (codes "error")
  filter_or_default panic = panic

  -- `main` after `process_control` had nothing to print.
  unfoldable pub start : Result FlagsError (BTreeMap Text) → Result StartError (Exit S)
  unfolding serve
  start resolved = and_then (filter_or_default (var resolved (codes "RUST_LOG"))) λ filter.
      if not (platform.parses_filter filter)
      then err log_filter
      else and_then
          (map_err configuration (config_from_lookup platform.parsers (to_lookup (var resolved))))
          λ loaded. and_then (serve loaded) λ server. ok (served server)

  abbrev pub after_control :
      Result FlagsError (BTreeMap Text) → Option Text → Result StartError (Exit S)
  after_control resolved (some output) = ok (printed output)
  after_control resolved none = start resolved

  -- `main`, by the configuration that was resolved.
  unfoldable pub main : Result FlagsError (BTreeMap Text) → Result StartError (Exit S)
  unfolding start
  main resolved =
      and_then
        (map_err flags
          (process_control platform.display platform.parse_table platform.cli_flags resolved))
        (after_control resolved)
