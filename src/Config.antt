-- ===== src/Config.antt =====
-- src/config.rs: the configuration of the process.
pub mod Hosts
pub mod Laws
use hhm_api_server_rs.Common.{
  is_some, ℕ, Bool, true, false, not, ◌&&◌, ◌||◌, Option, none, some, String, List, [], ◌∷◌, ◌++◌,
  Text, Text-Eq, codes, bytes, len, is_empty, all, split, eq_ignore_ascii_case,
  is_ascii_alphanumeric, ltb, nat_eq, ◌==◌, if◌then◌else◌,
}
use hhm_api_server_rs.Common.Result.{Result, ok, err, and_then, map_err, ok_or}
use hhm_api_server_rs.Http.{Url}
use hhm_api_server_rs.Settings.{Lookup, Parsers, SocketAddr, optional}
use hhm_api_server_rs.Policy.{RequestPolicy, RequestPolicyError, text_or, policy_from_lookup}

-- A `SecretString` is its text.
pub record Config : Type 0 where
  pub bind_address : SocketAddr
  pub primary_database_url : Text
  pub supabase_database_url : Text
  pub supabase_url : Url
  pub supabase_service_role_key : Text
  pub turnstile_secret_key : Text
  pub turnstile_action : Text
  pub shared_auth_base_url : Text
  pub shared_auth_service_credential : Text
  pub shared_auth_audience : Text
  pub cors_origins : Text
  pub request_policy : RequestPolicy

pub data ConfigError : Type 0 where
  missing invalid : String → ConfigError
  request_policy : RequestPolicyError → ConfigError

unfoldable pub required : Lookup → String → Result ConfigError Text
required lookup name = ok_or (missing name) (optional lookup name)

-- The test of `parse_https_url`.
abbrev pub is_https_url : Url → Bool
is_https_url url = url.scheme == codes "https" && is_some url.host_str && not (is_some url.query)

-- `labels.last()` is `svc`, or the last three labels are `svc.cluster.local`.
unfoldable pub in_cluster : List Text → Bool
in_cluster [] = false
in_cluster (a ∷ []) = eq_ignore_ascii_case a (codes "svc")
in_cluster (a ∷ b ∷ []) = eq_ignore_ascii_case b (codes "svc")
in_cluster (a ∷ b ∷ c ∷ []) =
    eq_ignore_ascii_case c (codes "svc")
    || eq_ignore_ascii_case a (codes "svc")
      && eq_ignore_ascii_case b (codes "cluster")
      && eq_ignore_ascii_case c (codes "local")
in_cluster (a ∷ b ∷ c ∷ d ∷ labels) = in_cluster (b ∷ c ∷ d ∷ labels)

abbrev pub host_or_empty : Option Text → Text
host_or_empty none = []
host_or_empty (some host) = host

-- The hosts that plain HTTP is accepted for.
unfoldable pub is_local : Text → Bool
unfolding in_cluster
is_local host =
    host == codes "localhost"
    || host == codes "127.0.0.1"
    || in_cluster (split (λ c. nat_eq c b'.') host)

unfoldable pub is_auth_url : Url → Bool
unfolding is_local
is_auth_url url =
    is_some url.host_str
    && not (is_some url.query)
    && (url.scheme == codes "https"
        || url.scheme == codes "http" && is_local (host_or_empty url.host_str))

unfoldable pub is_action : Text → Bool
is_action action =
    not (ltb 64 (len action))
    && not (is_empty action)
    && all (λ byte. is_ascii_alphanumeric byte || nat_eq byte b'-' || nat_eq byte b'_')
        (bytes action)

module _ (parsers : Parsers) where
  unfoldable pub parse_https_url : Lookup → String → Result ConfigError Url
  unfolding required
  parse_https_url lookup name = and_then (required lookup name) λ value.
      and_then (ok_or (invalid name) (parsers.parse_url value))
        λ url. if not (is_https_url url) then err (invalid name) else ok url

  unfoldable pub validate_auth_url : Text → Result ConfigError (Unit {0})
  unfolding is_auth_url
  validate_auth_url value =
      and_then (ok_or (invalid "SHARED_AUTH_BASE_URL") (parsers.parse_url value))
        λ url. if not (is_auth_url url) then err (invalid "SHARED_AUTH_BASE_URL") else ok tt

  -- The last settings, which are only required, with what was read before them.
  unfoldable pub with_required :
      Lookup → SocketAddr → Url → Text → Text → RequestPolicy → Result ConfigError Config
  unfolding required
  with_required lookup bind_address supabase_url base_url action policy =
      and_then (required lookup "DATABASE_URL") λ primary.
        and_then (required lookup "SUPABASE_DATABASE_URL") λ supabase.
          and_then (required lookup "SUPABASE_SERVICE_ROLE_KEY") λ service_role.
            and_then (required lookup "TURNSTILE_SECRET_KEY") λ turnstile.
              and_then (required lookup "SHARED_AUTH_SERVICE_CREDENTIAL") λ credential.
                and_then (required lookup "SHARED_AUTH_AUDIENCE") λ audience.
                  and_then (required lookup "CORS_ORIGINS") λ origins. ok (record {
                    bind_address = bind_address;
                    primary_database_url = primary;
                    supabase_database_url = supabase;
                    supabase_url = supabase_url;
                    supabase_service_role_key = service_role;
                    turnstile_secret_key = turnstile;
                    turnstile_action = action;
                    shared_auth_base_url = base_url;
                    shared_auth_service_credential = credential;
                    shared_auth_audience = audience;
                    cors_origins = origins;
                    request_policy = policy;
                  })

  -- `Config::from_lookup`.
  unfoldable pub config_from_lookup : Lookup → Result ConfigError Config
  unfolding parse_https_url required validate_auth_url policy_from_lookup with_required is_action
  config_from_lookup lookup =
      let host = text_or (optional lookup "HOST") "0.0.0.0" in
      let port = text_or (optional lookup "PORT") "8080" in
      let action = text_or (optional lookup "TURNSTILE_ACTION") "intake" in
      and_then (ok_or (invalid "HOST or PORT") (parsers.parse_socket_addr (host ++ b':' ∷ port)))
        λ bind_address. and_then (parse_https_url lookup "SUPABASE_URL") λ supabase_url.
          and_then (required lookup "SHARED_AUTH_BASE_URL") λ base_url.
            and_then (validate_auth_url base_url) λ _.
              if not (is_action action)
              then err (invalid "TURNSTILE_ACTION")
              else and_then (map_err request_policy (policy_from_lookup parsers lookup))
                  λ policy. with_required lookup bind_address supabase_url base_url action policy
