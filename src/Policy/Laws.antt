-- ===== src/Policy/Laws.antt =====
-- src/middleware.rs: which policies `RequestPolicy::from_lookup` lets through.
use hhm_api_server_rs.Common.{
  ℕ, ◌*◌, ◌^◌, ◌≤◌, ◌<◌, ◌≡◌, ◌≢◌, refl, sym, ap, ◌∙◌, to_ascii_lowercase, ◌⊎◌, inl, inr, Bool,
  true, false, Option, none, some, String, List, [], ◌∷◌, Text, is_empty, arith, ltb, leb, ◌&&◌,
  Option-cases,
}
use hhm_api_server_rs.Common.Result.{ok, and_then-eq-ok, ok_or, else-eq-ok}
use hhm_api_server_rs.Settings.{Lookup, Parsers, optional}
use hhm_api_server_rs.Settings.Numbers.{parse_unsigned, f64_one, is_finite, is_positive}
use hhm_api_server_rs.Settings.Numbers.Bounds.{parse_unsigned-lt}
use hhm_api_server_rs.Policy.{
  TlsMode, disabled, in_process, trusted_proxy, RuntimeEnvironment, development, test, staging,
  production, RequestPolicy, RequestPolicyError, production_tls_disabled, missing_trusted_proxy,
  missing_rate_limit_secret, invalid_timeout, invalid_body_limit, invalid_rate_limit_capacity,
  invalid_rate_limit_refill, is_production, is_disabled, is_trusted_proxy, no_entries, is_absent,
  csv_or_empty, text_or, environment_of, tls_mode_of, number_setting, filter_value, parse_number,
  with_limits, policy_from_lookup,
}

-- A policy that a server may run with. In production TLS is on and the rate limit has a secret that
-- is not empty; behind a trusted proxy the peers are listed; every limit is in its range.
pub record IsSafe (p : RequestPolicy) : Type 0 where
  pub encrypted : (p.environment ≢ production) ⊎ (p.tls_mode ≢ disabled)
  pub keyed :
      (p.environment ≢ production)
      ⊎ ((secret : Text) × (p.rate_limit_hmac_secret ≡ some secret) × (is_empty secret ≡ false))
  pub peers : (p.tls_mode ≢ trusted_proxy) ⊎ (p.trusted_proxy_cidrs ≢ [])
  pub timeout : (0 < p.timeout_ms) × (p.timeout_ms < 2 ^ 64)
  pub body : (0 < p.max_body_bytes) × (p.max_body_bytes ≤ 2 * 1024 * 1024)
  pub capacity : (0 < p.rate_limit_capacity) × (p.rate_limit_capacity < 2 ^ 32)
  pub refill :
      (is_finite p.rate_limit_refill_per_second ≡ true)
      × (is_positive p.rate_limit_refill_per_second ≡ true)

-- A setting that is there is not empty.
pub optional-some :
    (lookup : Lookup) (name : String) {value : Text}
    → optional lookup name ≡ some value
    → is_empty value ≡ false
unfolding optional
optional-some lookup name h = ground (arith, h, lookup name)

module _ (parse : Text → Option ℕ) (default : ℕ) (accepts : ℕ → Bool) (e : RequestPolicyError) where
  -- A number that was read passes its test, and is the default or what the parser made of a text.
  setting-eq-ok :
      (o : Option Text) {n : ℕ}
      → ok_or e (filter_value accepts (parse_number parse o default)) ≡ ok n
      → (accepts n ≡ true) × ((n ≡ default) ⊎ ((text : Text) × (parse text ≡ some n)))
  setting-eq-ok none {n} h =
      let same : default ≡ n = ground (arith, h) in
      (rw (← same) (ground (arith, h)), inl (sym same))
  setting-eq-ok (some text) {n} h = elim (Option-cases (parse text)) [
    | inl missing ↦ ground (arith, missing, h)
    | inr (v, found) ↦
        let same : v ≡ n = ground (arith, found, h) in
        (rw (← same) (ground (arith, found, h)), inr (text, found ∙ ap some same))
  ]

-- The same for a parser of an unsigned type, whose default fits.
unsigned-eq-ok :
    (limit default : ℕ) (accepts : ℕ → Bool) (e : RequestPolicyError) (o : Option Text) {n : ℕ}
    → 0 < limit
    → default < limit
    → ok_or e (filter_value accepts (parse_number (parse_unsigned limit) o default)) ≡ ok n
    → (accepts n ≡ true) × (n < limit)
unsigned-eq-ok limit default accepts e o room fits h =
    let (passes, from) = setting-eq-ok (parse_unsigned limit) default accepts e o h in
    (
      passes,
      elim from [
        | inl same ↦ rw same fits
        | inr (text, parsed) ↦ parse_unsigned-lt limit text room parsed
      ],
    )

production_or : (e : RuntimeEnvironment) → (e ≢ production) ⊎ (is_production e ≡ true)
production_or development = inl (λ h. cc)
production_or test = inl (λ h. cc)
production_or staging = inl (λ h. cc)
production_or production = inr refl

disabled_or : (m : TlsMode) → (m ≢ disabled) ⊎ (is_disabled m ≡ true)
disabled_or disabled = inr refl
disabled_or in_process = inl (λ h. cc)
disabled_or trusted_proxy = inl (λ h. cc)

proxy_or : (m : TlsMode) → (m ≢ trusted_proxy) ⊎ (is_trusted_proxy m ≡ true)
proxy_or disabled = inl (λ h. cc)
proxy_or in_process = inl (λ h. cc)
proxy_or trusted_proxy = inr refl

some_entry : (l : List Text) → no_entries l ≡ false → l ≢ []
some_entry [] h = cc
some_entry (x ∷ xs) h = λ e. cc

encrypted_by :
    (environment : RuntimeEnvironment) (tls_mode : TlsMode)
    → (is_production environment && is_disabled tls_mode) ≡ false
    → (environment ≢ production) ⊎ (tls_mode ≢ disabled)
encrypted_by environment tls_mode h = elim (production_or environment) [
  | inl other ↦ inl other
  | inr live ↦ elim (disabled_or tls_mode) [
    | inl on ↦ inr on
    | inr off ↦ ground (arith, live, off, h)
  ]
]

peers_by :
    (tls_mode : TlsMode) (cidrs : List Text)
    → (is_trusted_proxy tls_mode && no_entries cidrs) ≡ false
    → (tls_mode ≢ trusted_proxy) ⊎ (cidrs ≢ [])
peers_by tls_mode cidrs h = elim (proxy_or tls_mode) [
  | inl other ↦ inl other
  | inr proxied ↦ inr (some_entry cidrs (rw proxied at h))
]

keyed_by :
    (lookup : Lookup) (environment : RuntimeEnvironment) (name : String)
    → (is_production environment && is_absent (optional lookup name)) ≡ false
    → (environment ≢ production)
      ⊎ ((secret : Text) × (optional lookup name ≡ some secret) × (is_empty secret ≡ false))
keyed_by lookup environment name h = elim (production_or environment) [
  | inl other ↦ inl other
  | inr live ↦ elim (Option-cases (optional lookup name)) [
    | inl missing ↦ ground (arith, live, missing, h)
    | inr (secret, found) ↦ inr (secret, found, optional-some lookup name found)
  ]
]

module _ (parsers : Parsers) (lookup : Lookup) where
  with_limits-IsSafe :
      (environment : RuntimeEnvironment) (tls_mode : TlsMode) (cidrs : List Text)
      {p : RequestPolicy}
      → (environment ≢ production) ⊎ (tls_mode ≢ disabled)
      → (tls_mode ≢ trusted_proxy) ⊎ (cidrs ≢ [])
      → with_limits parsers lookup environment tls_mode cidrs ≡ ok p
      → IsSafe p
  unfolding with_limits
  with_limits-IsSafe environment tls_mode cidrs {p} encrypted peers h =
      let timeouts = optional lookup "ORES_MIDDLEWARE_TIMEOUT_MS" in
      let bodies = optional lookup "ORES_MIDDLEWARE_MAX_BODY_BYTES" in
      let capacities = optional lookup "ORES_MIDDLEWARE_RATE_LIMIT_CAPACITY" in
      let refills = optional lookup "ORES_MIDDLEWARE_RATE_LIMIT_REFILL_PER_SECOND" in
      let secret = optional lookup "ORES_MIDDLEWARE_RATE_LIMIT_HMAC_SECRET" in
      let body_test : ℕ → Bool = λ value. ltb 0 value && leb value (2 * 1024 * 1024) in
      let refill_test : ℕ → Bool = λ value. is_finite value && is_positive value in
      let (timeout, timed, h1) = and_then-eq-ok (number_setting parsers lookup _ _ _ _ _) _ h in
      let (body, sized, h2) = and_then-eq-ok (number_setting parsers lookup _ _ _ _ _) _ h1 in
      let (capacity, capped, h3) = and_then-eq-ok (number_setting parsers lookup _ _ _ _ _) _ h2 in
      let (refill, filled, h4) = and_then-eq-ok (number_setting parsers lookup _ _ _ _ _) _ h3 in
      let built : RequestPolicy = record {
        environment = environment;
        tls_mode = tls_mode;
        trusted_proxy_cidrs = cidrs;
        timeout_ms = timeout;
        max_body_bytes = body;
        rate_limit_capacity = capacity;
        rate_limit_refill_per_second = refill;
        rate_limit_hmac_secret = secret;
      } in
      let (keyed, last) =
        else-eq-ok (is_production environment && is_absent secret) missing_rate_limit_secret
          (ok built) h4 in
      let same : built ≡ p = ground (arith, last) in
      let (t1, t2) =
        unsigned-eq-ok (2 ^ 64) 10000 (ltb 0) invalid_timeout timeouts (omega arith) (omega arith)
          timed in
      let (b1, b2) =
        unsigned-eq-ok (2 ^ 64) (256 * 1024) body_test invalid_body_limit bodies (omega arith)
          (omega arith) sized in
      let (c1, c2) =
        unsigned-eq-ok (2 ^ 32) 60 (ltb 0) invalid_rate_limit_capacity capacities (omega arith)
          (omega arith) capped in
      let (r1, _) =
        setting-eq-ok parsers.parse_f64 f64_one refill_test invalid_rate_limit_refill refills
          filled in
      rw (← same) (record {
        encrypted = encrypted;
        keyed = keyed_by lookup environment "ORES_MIDDLEWARE_RATE_LIMIT_HMAC_SECRET" keyed;
        peers = peers;
        timeout = (ground (arith, t1), t2);
        body = (ground (arith, b1), ground (arith, b1));
        capacity = (ground (arith, c1), c2);
        refill = (ground (arith, r1), ground (arith, r1));
      })

  -- Every policy that is read from the settings is safe.
  pub policy_from_lookup-IsSafe :
      {p : RequestPolicy} → policy_from_lookup parsers lookup ≡ ok p → IsSafe p
  unfolding policy_from_lookup
  policy_from_lookup-IsSafe h =
      let name = to_ascii_lowercase (text_or (optional lookup "APP_ENV") "development") in
      let mode =
        to_ascii_lowercase (text_or (optional lookup "ORES_MIDDLEWARE_TLS_MODE") "disabled") in
      let cidrs = csv_or_empty (optional lookup "ORES_MIDDLEWARE_TRUSTED_PROXY_CIDRS") in
      let (environment, _, h1) = and_then-eq-ok (environment_of name) _ h in
      let (tls_mode, _, h2) = and_then-eq-ok (tls_mode_of mode) _ h1 in
      let (encrypted, h3) =
        else-eq-ok (is_production environment && is_disabled tls_mode) production_tls_disabled _
          h2 in
      let (peers, h4) =
        else-eq-ok (is_trusted_proxy tls_mode && no_entries cidrs) missing_trusted_proxy
          (with_limits parsers lookup environment tls_mode cidrs) h3 in
      with_limits-IsSafe environment tls_mode cidrs (encrypted_by environment tls_mode encrypted)
        (peers_by tls_mode cidrs peers) h4
