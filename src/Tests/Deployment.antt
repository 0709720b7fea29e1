-- ===== src/Tests/Deployment.antt =====
-- A production deployment: its settings, its command line and its platform, and what is proved of
-- the start-up on them.
use hhm_api_server_rs.Common.{
  ℕ, ◌^◌, ◌*◌, ◌≡◌, refl, true, false, Option, none, some, List, [], ◌∷◌, ◌++◌, String, Text,
  Text-Eq, codes, bytes, split_once, ◌==◌, if◌then◌else◌, arith,
}
use hhm_api_server_rs.Common.Result.{ok}
use hhm_api_server_rs.Common.Maps.{get}
use hhm_api_server_rs.Http.{Url}
use hhm_api_server_rs.Settings.{Lookup, SocketAddr, Parsers, optional}
use hhm_api_server_rs.Settings.Numbers.{parse_unsigned, parse_digits}
use hhm_api_server_rs.Policy.{
  production, development, trusted_proxy, RequestPolicy, policy_from_lookup, with_limits, split_csv,
}
use hhm_api_server_rs.Policy.Stack.{
  MiddlewareConfig, Middleware, local_only, ephemeral_hmac_sha256, stack_config, stack_from_policy,
}
use hhm_api_server_rs.Policy.Stack.Hardened.{IsHardened, stack_from_policy-IsHardened}
use hhm_api_server_rs.Config.{
  Config, config_from_lookup, required, parse_https_url, validate_auth_url, is_auth_url, is_local,
  in_cluster, is_action, with_required,
}
use hhm_api_server_rs.Config.Laws.{IsUsable, config_from_lookup-IsUsable}
use hhm_api_server_rs.Auth.Build.{
  Authenticator, authenticator_from_config, introspection_endpoint, is_credential, is_audience,
}
use hhm_api_server_rs.Auth.Build.Laws.{
  KeepsOrigin, IsSendable, authenticator_from_config-IsSendable,
}
use hhm_api_server_rs.Policy.Laws.{IsSafe, policy_from_lookup-IsSafe}

abbrev pub joined_path : Text → List Text → Text
joined_path path [] = path
joined_path path (segment ∷ segments) = joined_path (path ++ codes "/" ++ segment) segments

abbrev pub supabase_project : Url
supabase_project = record {
  scheme = codes "https";
  username = [];
  password = none;
  host_str = some (codes "hhm.supabase.co");
  path = codes "/";
  query = none;
  fragment = none;
  query_keys = [];
}

abbrev pub shared_auth : Url
shared_auth = record supabase_project {
  scheme = codes "http";
  host_str = some (codes "shared-auth.auth.svc");
  path = [];
}

abbrev known_url : Text → Option Url
known_url raw =
    if raw == codes "https://hhm.supabase.co"
    then some supabase_project
    else if raw == codes "http://shared-auth.auth.svc"
    then some shared_auth
    else none

abbrev address_parts : Option (Text × Text) → Option SocketAddr
address_parts none = none
address_parts (some (host, port)) = elim (parse_unsigned (2 ^ 16) port) [
  | none ↦ none
  | some n ↦ some (record { ip = host; port = n })
]

abbrev pub parsers : Parsers
parsers = record {
  parse_url = known_url;
  extend_segments = λ url segments. some (record url { path = joined_path url.path segments });
  parse_socket_addr = λ raw. address_parts (split_once b':' raw);
  parse_f64 = λ _. none;
}

abbrev pub settings : List (Text × Text)
settings =
    (codes "APP_ENV", codes " Production ")
    ∷ (codes "CORS_ORIGINS", codes "https://hhaus.org, https://hhaus.org")
    ∷ (codes "DATABASE_URL", codes "postgres://primary")
    ∷ (codes "ORES_MIDDLEWARE_RATE_LIMIT_HMAC_SECRET", codes "hmac")
    ∷ (codes "ORES_MIDDLEWARE_TIMEOUT_MS", codes "2500")
    ∷ (codes "ORES_MIDDLEWARE_TLS_MODE", codes "trusted-proxy")
    ∷ (codes "ORES_MIDDLEWARE_TRUSTED_PROXY_CIDRS", codes "10.0.0.0/8, ,192.168.0.0/16")
    ∷ (codes "PORT", codes "9000")
    ∷ (codes "SHARED_AUTH_AUDIENCE", codes "hhm-api")
    ∷ (codes "SHARED_AUTH_BASE_URL", codes "http://shared-auth.auth.svc")
    ∷ (codes "SHARED_AUTH_SERVICE_CREDENTIAL", codes "credential")
    ∷ (codes "SUPABASE_DATABASE_URL", codes "postgres://supabase")
    ∷ (codes "SUPABASE_SERVICE_ROLE_KEY", codes "role")
    ∷ (codes "SUPABASE_URL", codes "https://hhm.supabase.co")
    ∷ (codes "TURNSTILE_SECRET_KEY", codes "turnstile")
    ∷ []

abbrev pub lookup : Lookup
unfolding get
lookup name = get settings (codes name)

abbrev pub policy : RequestPolicy
policy = record {
  environment = production;
  tls_mode = trusted_proxy;
  trusted_proxy_cidrs = codes "10.0.0.0/8" ∷ codes "192.168.0.0/16" ∷ [];
  timeout_ms = 2500;
  max_body_bytes = 262144;
  rate_limit_capacity = 60;
  rate_limit_refill_per_second = 1023 * 2 ^ 52;
  rate_limit_hmac_secret = some (codes "hmac");
}

policy_read : policy_from_lookup parsers lookup ≡ ok policy
unfolding policy_from_lookup with_limits optional get parse_unsigned parse_digits split_csv
policy_read = refl

policy_from_lookup-IsSafe_example : IsSafe policy
policy_from_lookup-IsSafe_example = policy_from_lookup-IsSafe parsers lookup policy_read

abbrev standard : String → MiddlewareConfig
standard service = record {
  environment = development;
  timeout_ms = 30000;
  max_body_bytes = 1048576;
  tls_mode = "disabled";
  require_https = false;
  strict_forwarded_headers = false;
  trusted_proxy_cidrs = [];
  capacity = 100;
  refill_per_second = 1023 * 2 ^ 52;
  key_by = [];
  failure_mode = local_only;
  key_derivation = ephemeral_hmac_sha256;
  otel_enabled = false;
  otel_service_name = service;
  otel_propagators = [];
  others = [];
}

-- A middleware whose stack is its configuration with its keys.
abbrev pub middleware : Middleware (MiddlewareConfig × List ℕ)
middleware = record {
  default_config = standard;
  new = λ config. some (config, []);
  with_rate_limit_hmac_key = λ stack key. some (stack.0, key);
}

stack_from_policy-IsHardened_example :
    IsHardened middleware policy (stack_config middleware policy, bytes (codes "hmac"))
unfolding stack_from_policy
stack_from_policy-IsHardened_example =
    stack_from_policy-IsHardened middleware (policy_from_lookup-IsSafe parsers lookup policy_read)
      refl refl

abbrev pub configured : Config
configured = record {
  bind_address = record { ip = codes "0.0.0.0"; port = 9000 };
  primary_database_url = codes "postgres://primary";
  supabase_database_url = codes "postgres://supabase";
  supabase_url = supabase_project;
  supabase_service_role_key = codes "role";
  turnstile_secret_key = codes "turnstile";
  turnstile_action = codes "intake";
  shared_auth_base_url = codes "http://shared-auth.auth.svc";
  shared_auth_service_credential = codes "credential";
  shared_auth_audience = codes "hhm-api";
  cors_origins = codes "https://hhaus.org, https://hhaus.org";
  request_policy = policy;
}

config_read : config_from_lookup parsers lookup ≡ ok configured
unfolding config_from_lookup policy_from_lookup with_limits optional get parse_unsigned parse_digits
    split_csv required parse_https_url validate_auth_url is_auth_url is_local in_cluster is_action
    with_required
config_read = refl

config_from_lookup-IsUsable_example : IsUsable parsers lookup configured
config_from_lookup-IsUsable_example = config_from_lookup-IsUsable parsers lookup config_read

pub keeps_origin : KeepsOrigin parsers
keeps_origin url extended segments h =
    let same : record url { path = joined_path url.path segments } ≡ extended = ground (arith, h) in
    rw (← same) (refl, refl)

abbrev pub adapter : Authenticator
adapter = record {
  endpoint = record shared_auth { path = codes "/auth/introspect" };
  service_credential = codes "credential";
  audience = codes "hhm-api";
}

authenticator_from_config-IsSendable_example : IsSendable configured adapter
unfolding authenticator_from_config introspection_endpoint is_credential is_audience
authenticator_from_config-IsSendable_example =
    authenticator_from_config-IsSendable parsers keeps_origin lookup true config_read refl
