-- ===== src/Tests/Process.antt =====
-- The process that the deployment starts.
use hhm_api_server_rs.Common.{refl, List, [], ◌∷◌, ℕ, codes, bytes, true, none, some}
use hhm_api_server_rs.Common.Result.{ok, err}
use hhm_api_server_rs.Common.Maps.{get}
use hhm_api_server_rs.Settings.{optional}
use hhm_api_server_rs.Settings.Numbers.{parse_unsigned, parse_digits}
use hhm_api_server_rs.Policy.{policy_from_lookup, with_limits, split_csv}
use hhm_api_server_rs.Policy.Stack.{MiddlewareConfig, stack_config, stack_from_policy}
use hhm_api_server_rs.Config.{
  config_from_lookup, required, parse_https_url, validate_auth_url, is_auth_url, is_local,
  in_cluster, is_action, with_required,
}
use hhm_api_server_rs.Auth.Build.{
  authenticator_from_config, introspection_endpoint, is_credential, is_audience,
}
use hhm_api_server_rs.Api.Cors.{Uri, cors_origins, collect_origins}
use hhm_api_server_rs.Api.Routes.{api_routes, router, cors_layer, get as get_method, post}
use hhm_api_server_rs.Api.State.{AppState}
use hhm_api_server_rs.Flags.Process.{process_control, var, help_table}
use hhm_api_server_rs.Startup.{Platform, Server, app_state_from_config, serve, start, main}
use hhm_api_server_rs.Startup.Laws.{IsStarted, main-IsStarted}
use hhm_api_server_rs.Tests.Data.{accepting, healthy, services}
use hhm_api_server_rs.Tests.Deployment.{
  parsers, middleware, settings, configured, supabase_project, keeps_origin, policy,
}

abbrev exact_uri : Uri
exact_uri = record {
  scheme_str = some (codes "https");
  authority = some (codes "hhaus.org");
  path = codes "/";
  query = none;
}

abbrev platform : Platform (MiddlewareConfig × List ℕ)
platform = record {
  parsers = parsers;
  middleware = middleware;
  contract = accepting;
  builds_client = true;
  builds_auth_client = true;
  connect = λ _. some healthy;
  outside = λ _ _ _. services;
  parse_uri = λ _. some exact_uri;
  parse_header = λ raw. some raw;
  binds = λ _. true;
  parses_filter = λ _. true;
  parse_table = λ _. err [];
  display = λ _. [];
  cli_flags = [];
}

abbrev app_state : AppState
app_state = record {
  primary = healthy;
  supabase = healthy;
  audience = codes "hhm-api";
  expected_action = codes "intake";
  project_url = supabase_project;
  contract = accepting;
  outside = services;
}

abbrev server : Server (MiddlewareConfig × List ℕ)
server = record {
  router = record {
    routes = api_routes;
    layer = record {
      allow_origin = codes "https://hhaus.org" ∷ [];
      allow_methods = get_method ∷ post ∷ [];
      allow_headers = codes "content-type" ∷ codes "authorization" ∷ codes "idempotency-key" ∷ [];
    };
    state = app_state;
  };
  stack = (stack_config middleware policy, bytes (codes "hmac"));
  address = configured.bind_address;
}

main-IsStarted_example : IsStarted platform keeps_origin (ok settings) server
unfolding main start serve app_state_from_config process_control var help_table router cors_layer
    cors_origins collect_origins stack_from_policy authenticator_from_config introspection_endpoint
    is_credential is_audience config_from_lookup policy_from_lookup with_limits optional get
    parse_unsigned parse_digits split_csv required parse_https_url validate_auth_url is_auth_url
    is_local in_cluster is_action with_required
main-IsStarted_example = main-IsStarted platform keeps_origin (ok settings) refl
