-- ===== src/Auth/Build.antt =====
-- src/auth.rs: how the Shared Auth adapter is built from the configuration.
pub mod Laws
use hhm_api_server_rs.Common.{
  is_some, ℕ, Bool, true, false, not, ◌&&◌, ◌||◌, Option, none, some, List, [], ◌∷◌, Text, codes,
  bytes, len, is_empty, any, all, is_whitespace, is_ascii_alphanumeric, ltb, nat_eq, if◌then◌else◌,
}
use hhm_api_server_rs.Common.Result.{Result, ok, err, and_then, ok_or}
use hhm_api_server_rs.Http.{Url}
use hhm_api_server_rs.Settings.{Parsers}
use hhm_api_server_rs.Config.{Config}
use hhm_api_server_rs.Auth.{max_credential_bytes}

abbrev pub max_audience_bytes : ℕ
max_audience_bytes = 128

-- The fields of `Authenticator` beside its HTTP client.
pub record Authenticator : Type 0 where
  pub endpoint : Url
  pub service_credential : Text
  pub audience : Text

pub data AuthBuildError : Type 0 where
  invalid_base_url invalid_service_credential invalid_audience transport : AuthBuildError

unfoldable pub is_credential : Text → Bool
is_credential credential =
    not (is_empty credential)
    && not (ltb max_credential_bytes (len credential))
    && not (any is_whitespace credential)

abbrev pub is_audience_byte : ℕ → Bool
is_audience_byte byte =
    is_ascii_alphanumeric byte
    || nat_eq byte b'-'
    || nat_eq byte b'_'
    || nat_eq byte b':'
    || nat_eq byte b'.'

unfoldable pub is_audience : Text → Bool
is_audience audience =
    not (is_empty audience)
    && not (ltb max_audience_bytes (len audience))
    && all is_audience_byte (bytes audience)

-- A base URL that has no user, password, query or fragment.
abbrev pub is_plain : Url → Bool
is_plain url =
    is_empty url.username
    && not (is_some url.password)
    && not (is_some url.query)
    && not (is_some url.fragment)

module _ (parsers : Parsers) where
  unfoldable pub introspection_endpoint : Text → Result AuthBuildError Url
  introspection_endpoint raw = and_then (ok_or invalid_base_url (parsers.parse_url raw)) λ url.
      if not (is_plain url)
      then err invalid_base_url
      else ok_or invalid_base_url
          (parsers.extend_segments url (codes "auth" ∷ codes "introspect" ∷ []))

  -- `Authenticator::from_config`; the flag says whether the HTTP client could be built.
  unfoldable pub authenticator_from_config : Bool → Config → Result AuthBuildError Authenticator
  unfolding is_credential is_audience introspection_endpoint
  authenticator_from_config builds config =
      if not (is_credential config.shared_auth_service_credential)
      then err invalid_service_credential
      else if not (is_audience config.shared_auth_audience)
      then err invalid_audience
      else and_then (introspection_endpoint config.shared_auth_base_url) λ endpoint.
        if not builds
        then err transport
        else ok (record {
          endpoint = endpoint;
          service_credential = config.shared_auth_service_credential;
          audience = config.shared_auth_audience;
        })
