-- ===== src/Config/Laws.antt =====
-- src/config.rs: what a configuration that was loaded guarantees.
use hhm_api_server_rs.Common.{
  ◌≤◌, ◌<◌, ◌≡◌, refl, Bool, true, false, not, ◌&&◌, ◌||◌, none, some, String, [], ◌∷◌, ◌++◌, Text,
  Text-Eq, codes, bytes, len, is_empty, all, is_ascii_alphanumeric, nat_eq, ltb, arith, &&-eq-true,
}
use hhm_api_server_rs.Common.Result.{
  ok, and_then-eq-ok, map_err, map_err-eq-ok, ok_or, ok_or-eq-ok, else-eq-ok,
}
use hhm_api_server_rs.Http.{Url}
use hhm_api_server_rs.Settings.{Lookup, Parsers, SocketAddr, optional}
use hhm_api_server_rs.Policy.{RequestPolicy, text_or, policy_from_lookup}
use hhm_api_server_rs.Policy.Laws.{IsSafe, optional-some, policy_from_lookup-IsSafe}
use hhm_api_server_rs.Config.Hosts.{IsProtected, is_auth_url-IsProtected, is_https_url_parts}
use hhm_api_server_rs.Config.{
  Config, missing, invalid, request_policy, required, is_https_url, is_auth_url, is_action,
  parse_https_url, validate_auth_url, with_required, config_from_lookup,
}

pub not-false : (b : Bool) → not b ≡ false → b ≡ true
not-false true h = refl
not-false false h = cc

module _ (parsers : Parsers) (lookup : Lookup) where
  -- A configuration that a process may start with. The project's URL is HTTPS; the base URL of
  -- Shared Auth does not leave TLS, the machine or the cluster; the action of Turnstile is a word
  -- of 1 to 64 bytes; no required setting is empty; and the request policy is safe.
  pub record IsUsable (config : Config) : Type 0 where
    pub supabase :
        (config.supabase_url.scheme ≡ codes "https")
        × (config.supabase_url.query ≡ none)
        × ((host : Text) × (config.supabase_url.host_str ≡ some host))
    pub shared_auth :
        (url : Url) × (parsers.parse_url config.shared_auth_base_url ≡ some url)
        × IsProtected url
        × (url.query ≡ none)
    pub action_size : (0 < len config.turnstile_action) × (len config.turnstile_action ≤ 64)
    pub action_bytes :
        all
          (λ byte. is_ascii_alphanumeric byte || nat_eq byte b'-' || nat_eq byte b'_')
          (bytes config.turnstile_action)
        ≡ true
    pub secrets :
        (is_empty config.primary_database_url ≡ false)
        × (is_empty config.supabase_database_url ≡ false)
        × (is_empty config.supabase_service_role_key ≡ false)
        × (is_empty config.turnstile_secret_key ≡ false)
        × (is_empty config.shared_auth_service_credential ≡ false)
        × (is_empty config.shared_auth_audience ≡ false)
        × (is_empty config.cors_origins ≡ false)
    pub policy : IsSafe config.request_policy

  required-some :
      (name : String) {value : Text} → required lookup name ≡ ok value → is_empty value ≡ false
  unfolding required
  required-some name h =
      optional-some lookup name (ok_or-eq-ok (missing name) (optional lookup name) h)

  parse_https_url_parts :
      (name : String) {url : Url}
      → parse_https_url parsers lookup name ≡ ok url
      → (url.scheme ≡ codes "https")
        × (url.query ≡ none)
        × ((host : Text) × (url.host_str ≡ some host))
  unfolding parse_https_url
  parse_https_url_parts name {url} h =
      let (value, _, h1) = and_then-eq-ok (required lookup name) _ h in
      let (parsed, _, h2) = and_then-eq-ok (ok_or (invalid name) (parsers.parse_url value)) _ h1 in
      let (passed, h3) = else-eq-ok (not (is_https_url parsed)) (invalid name) (ok parsed) h2 in
      let same : parsed ≡ url = ground (arith, h3) in
      rw (← same) (is_https_url_parts parsed (not-false (is_https_url parsed) passed))

  validate_auth_url-IsProtected :
      (value : Text) {u : Unit}
      → validate_auth_url parsers value ≡ ok u
      → (url : Url) × (parsers.parse_url value ≡ some url) × IsProtected url × (url.query ≡ none)
  unfolding validate_auth_url
  validate_auth_url-IsProtected value h =
      let e = invalid "SHARED_AUTH_BASE_URL" in
      let (url, parsed, h1) = and_then-eq-ok (ok_or e (parsers.parse_url value)) _ h in
      let (passed, _) = else-eq-ok (not (is_auth_url url)) e (ok tt) h1 in
      let (protected, plain, _) =
        is_auth_url-IsProtected url (not-false (is_auth_url url) passed) in
      (url, ok_or-eq-ok e (parsers.parse_url value) parsed, protected, plain)

  is_action_parts :
      (action : Text)
      → is_action action ≡ true
      → (0 < len action)
        × (len action ≤ 64)
        × (all
              (λ byte. is_ascii_alphanumeric byte || nat_eq byte b'-' || nat_eq byte b'_')
              (bytes action)
            ≡ true)
  unfolding is_action
  is_action_parts [] h = cc
  is_action_parts (c ∷ action) h =
      let short = not (ltb 64 (len (c ∷ action))) in
      let (both, word) = &&-eq-true (short && true) _ h in
      let (fits, _) = &&-eq-true short true both in (ground arith, ground (arith, fits), word)

  -- Every required setting is there, and the other fields are what was read before.
  with_required-IsUsable :
      (bind_address : SocketAddr) (supabase_url : Url) (base_url action : Text)
      (policy : RequestPolicy) {config : Config}
      → (supabase_url.scheme ≡ codes "https")
        × (supabase_url.query ≡ none)
        × ((host : Text) × (supabase_url.host_str ≡ some host))
      → (url : Url) × (parsers.parse_url base_url ≡ some url) × IsProtected url × (url.query ≡ none)
      → is_action action ≡ true
      → IsSafe policy
      → with_required parsers lookup bind_address supabase_url base_url action policy ≡ ok config
      → IsUsable config
  unfolding with_required
  with_required-IsUsable bind_address supabase_url base_url action policy {config} project auth word
        safe h =
      let (primary, r1, h1) = and_then-eq-ok (required lookup "DATABASE_URL") _ h in
      let (supabase, r2, h2) = and_then-eq-ok (required lookup "SUPABASE_DATABASE_URL") _ h1 in
      let (service_role, r3, h3) =
        and_then-eq-ok (required lookup "SUPABASE_SERVICE_ROLE_KEY") _ h2 in
      let (turnstile, r4, h4) = and_then-eq-ok (required lookup "TURNSTILE_SECRET_KEY") _ h3 in
      let (credential, r5, h5) =
        and_then-eq-ok (required lookup "SHARED_AUTH_SERVICE_CREDENTIAL") _ h4 in
      let (audience, r6, h6) = and_then-eq-ok (required lookup "SHARED_AUTH_AUDIENCE") _ h5 in
      let (origins, r7, h7) = and_then-eq-ok (required lookup "CORS_ORIGINS") _ h6 in
      let built : Config = record {
        bind_address = bind_address;
        primary_database_url = primary;
        supabase_database_url = supabase;
        supabase_url = supabase_url;
        supabase_service_role_key = service_role;
        turnstile_secret_key = turnstile;
        turnstile_action = action;
        shared_auth_base_url = base_url;
        shared_auth_service_credential = credential;
        shared_auth_audience = audience;
        cors_origins = origins;
        request_policy = policy;
      } in
      let same : built ≡ config = ground (arith, h7) in
      let (positive, small, word_bytes) = is_action_parts action word in
      rw (← same) (record {
        supabase = project;
        shared_auth = auth;
        action_size = (positive, small);
        action_bytes = word_bytes;
        secrets = (
          required-some "DATABASE_URL" r1,
          required-some "SUPABASE_DATABASE_URL" r2,
          required-some "SUPABASE_SERVICE_ROLE_KEY" r3,
          required-some "TURNSTILE_SECRET_KEY" r4,
          required-some "SHARED_AUTH_SERVICE_CREDENTIAL" r5,
          required-some "SHARED_AUTH_AUDIENCE" r6,
          required-some "CORS_ORIGINS" r7,
        );
        policy = safe;
      })

  -- Every configuration that is loaded from the settings is usable.
  pub config_from_lookup-IsUsable :
      {config : Config} → config_from_lookup parsers lookup ≡ ok config → IsUsable config
  unfolding config_from_lookup
  config_from_lookup-IsUsable h =
      let action = text_or (optional lookup "TURNSTILE_ACTION") "intake" in
      let host = text_or (optional lookup "HOST") "0.0.0.0" in
      let port = text_or (optional lookup "PORT") "8080" in
      let address = parsers.parse_socket_addr (host ++ b':' ∷ port) in
      let (bind_address, _, h1) = and_then-eq-ok (ok_or (invalid "HOST or PORT") address) _ h in
      let (supabase_url, parsed, h2) =
        and_then-eq-ok (parse_https_url parsers lookup "SUPABASE_URL") _ h1 in
      let (base_url, _, h3) = and_then-eq-ok (required lookup "SHARED_AUTH_BASE_URL") _ h2 in
      let (_, valid, h4) = and_then-eq-ok (validate_auth_url parsers base_url) _ h3 in
      let (word, h5) = else-eq-ok (not (is_action action)) (invalid "TURNSTILE_ACTION") _ h4 in
      let (policy, read, h6) =
        and_then-eq-ok (map_err request_policy (policy_from_lookup parsers lookup)) _ h5 in
      with_required-IsUsable bind_address supabase_url base_url action policy
        (parse_https_url_parts "SUPABASE_URL" parsed) (validate_auth_url-IsProtected base_url valid)
        (not-false (is_action action) word)
        (policy_from_lookup-IsSafe parsers lookup
          (map_err-eq-ok request_policy (policy_from_lookup parsers lookup) read))
        h6
