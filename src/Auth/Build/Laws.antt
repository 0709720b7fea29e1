-- ===== src/Auth/Build/Laws.antt =====
-- src/auth.rs: the adapter that a loaded configuration gives.
use hhm_api_server_rs.Common.{
  ◌≤◌, ◌≡◌, ◌≢◌, ◌∙◌, refl, Bool, true, false, not, ◌&&◌, some, List, [], ◌∷◌, Text, codes, bytes,
  len, is_empty, any, all, is_whitespace, arith, ltb, &&-eq-true,
}
use hhm_api_server_rs.Common.Result.{ok, and_then-eq-ok, ok_or, ok_or-eq-ok, else-eq-ok}
use hhm_api_server_rs.Http.{Url}
use hhm_api_server_rs.Settings.{Lookup, Parsers}
use hhm_api_server_rs.Config.{Config, config_from_lookup}
use hhm_api_server_rs.Config.Hosts.{IsProtected, https, local}
use hhm_api_server_rs.Config.Laws.{config_from_lookup-IsUsable, not-false}
use hhm_api_server_rs.Auth.{max_credential_bytes}
use hhm_api_server_rs.Auth.Build.{
  max_audience_bytes, Authenticator, invalid_base_url, invalid_service_credential, invalid_audience,
  transport, is_credential, is_audience_byte, is_audience, is_plain, introspection_endpoint,
  authenticator_from_config,
}

-- What the crate `url` documents of `path_segments_mut`: the scheme and the host stay.
abbrev pub KeepsOrigin : Parsers → Type 0
KeepsOrigin parsers =
    (url extended : Url) (segments : List Text)
    → parsers.extend_segments url segments ≡ some extended
    → (extended.scheme ≡ url.scheme) × (extended.host_str ≡ url.host_str)

-- An adapter that may send its credential: to a protected endpoint, the configured credential,
-- which is one header word, for the configured audience, which is not empty and short.
pub record IsSendable (config : Config) (a : Authenticator) : Type 0 where
  pub held :
      (a.service_credential ≡ config.shared_auth_service_credential)
      × (a.audience ≡ config.shared_auth_audience)
  pub endpoint : IsProtected a.endpoint
  pub credential :
      (a.service_credential ≢ [])
      × (len a.service_credential ≤ max_credential_bytes)
      × (any is_whitespace a.service_credential ≡ false)
  pub audience :
      (a.audience ≢ [])
      × (len a.audience ≤ max_audience_bytes)
      × (all is_audience_byte (bytes a.audience) ≡ true)

not-true : (b : Bool) → not b ≡ true → b ≡ false
not-true true h = cc
not-true false h = refl

filled : (t : Text) → not (is_empty t) ≡ true → t ≢ []
filled [] h = cc
filled (c ∷ t) h = λ e. cc

is_credential_parts :
    (credential : Text)
    → is_credential credential ≡ true
    → (credential ≢ [])
      × (len credential ≤ max_credential_bytes)
      × (any is_whitespace credential ≡ false)
unfolding is_credential
is_credential_parts credential h =
    let (both, word) =
      &&-eq-true (not (is_empty credential) && not (ltb max_credential_bytes (len credential))) _
        h in
    let (some_byte, short) = &&-eq-true (not (is_empty credential)) _ both in
    (
      filled credential some_byte,
      ground (arith, short),
      not-true (any is_whitespace credential) word,
    )

is_audience_parts :
    (audience : Text)
    → is_audience audience ≡ true
    → (audience ≢ [])
      × (len audience ≤ max_audience_bytes)
      × (all is_audience_byte (bytes audience) ≡ true)
unfolding is_audience
is_audience_parts audience h =
    let (both, word) =
      &&-eq-true (not (is_empty audience) && not (ltb max_audience_bytes (len audience))) _ h in
    let (some_byte, short) = &&-eq-true (not (is_empty audience)) _ both in
    (filled audience some_byte, ground (arith, short), word)

-- The protection of a URL depends on its scheme and host only.
IsProtected_same :
    {url other : Url}
    → (other.scheme ≡ url.scheme) × (other.host_str ≡ url.host_str)
    → IsProtected url
    → IsProtected other
IsProtected_same (schemes, hosts) (https secure) = https (schemes ∙ secure)
IsProtected_same (schemes, hosts) (local found clear near) =
    local (hosts ∙ found) (schemes ∙ clear) near

module _ (parsers : Parsers) (keeps : KeepsOrigin parsers) where
  introspection_endpoint-IsProtected :
      (raw : Text) {url endpoint : Url}
      → parsers.parse_url raw ≡ some url
      → IsProtected url
      → introspection_endpoint parsers raw ≡ ok endpoint
      → IsProtected endpoint
  unfolding introspection_endpoint
  introspection_endpoint-IsProtected raw {url} {endpoint} known protected h =
      let (base, parsed, h1) =
        and_then-eq-ok (ok_or invalid_base_url (parsers.parse_url raw)) _ h in
      let (_, h2) = else-eq-ok (not (is_plain base)) invalid_base_url _ h1 in
      let segments = codes "auth" ∷ codes "introspect" ∷ [] in
      let same : url ≡ base =
        ground (arith, known, ok_or-eq-ok invalid_base_url (parsers.parse_url raw) parsed) in
      IsProtected_same
        (keeps base endpoint segments
          (ok_or-eq-ok invalid_base_url (parsers.extend_segments base segments) h2))
        (rw same at protected)

  -- The adapter that a configuration from the settings gives sends its credential to a protected
  -- endpoint only, provided that appending path segments to a URL keeps its scheme and host.
  pub authenticator_from_config-IsSendable :
      (lookup : Lookup) (builds : Bool) {config : Config} {a : Authenticator}
      → config_from_lookup parsers lookup ≡ ok config
      → authenticator_from_config parsers builds config ≡ ok a
      → IsSendable config a
  unfolding authenticator_from_config
  authenticator_from_config-IsSendable lookup builds {config} {a} loaded h =
      let (url, parsed, protected, _) =
        (config_from_lookup-IsUsable parsers lookup loaded).shared_auth in
      let credential = config.shared_auth_service_credential in
      let audience = config.shared_auth_audience in
      let (c1, h1) = else-eq-ok (not (is_credential credential)) invalid_service_credential _ h in
      let (a1, h2) = else-eq-ok (not (is_audience audience)) invalid_audience _ h1 in
      let (endpoint, built, h3) =
        and_then-eq-ok (introspection_endpoint parsers config.shared_auth_base_url) _ h2 in
      let adapter : Authenticator = record {
        endpoint = endpoint;
        service_credential = credential;
        audience = audience;
      } in
      let (_, h4) = else-eq-ok (not builds) transport (ok adapter) h3 in
      let same : adapter ≡ a = ground (arith, h4) in
      rw (← same) (record {
        held = (refl, refl);
        endpoint =
            introspection_endpoint-IsProtected config.shared_auth_base_url parsed protected built;
        credential = is_credential_parts credential (not-false (is_credential credential) c1);
        audience = is_audience_parts audience (not-false (is_audience audience) a1);
      })
