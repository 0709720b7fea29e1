-- ===== src/Policy.antt =====
-- src/middleware.rs: the request policy.
pub mod Laws
pub mod Stack
use hhm_api_server_rs.Common.{
  ℕ, ◌*◌, ◌^◌, Bool, true, false, not, ◌&&◌, ◌||◌, Option, none, some, String, List, [], ◌∷◌, Text,
  Text-Eq, codes, map, trim, split, non_empty, to_ascii_lowercase, ltb, leb, nat_eq, ◌==◌,
  if◌then◌else◌,
}
use mathlib.Core.Option
use hhm_api_server_rs.Common.Result.{Result, ok, err, and_then, ok_or}
use hhm_api_server_rs.Settings.{Lookup, Parsers, optional}
use hhm_api_server_rs.Settings.Numbers.{parse_unsigned, f64_one, is_finite, is_positive}

pub data TlsMode : Type 0 where
  disabled in_process trusted_proxy : TlsMode

abbrev pub as_contract_value : TlsMode → String
as_contract_value disabled = "disabled"
as_contract_value in_process = "in-process"
as_contract_value trusted_proxy = "trusted-proxy"

-- `RuntimeEnvironment` of the crate `ores-middleware`.
pub data RuntimeEnvironment : Type 0 where
  development test staging production : RuntimeEnvironment

pub record RequestPolicy : Type 0 where
  pub environment : RuntimeEnvironment
  pub tls_mode : TlsMode
  pub trusted_proxy_cidrs : List Text
  pub timeout_ms : ℕ
  pub max_body_bytes : ℕ
  pub rate_limit_capacity : ℕ
  pub rate_limit_refill_per_second : ℕ
  pub rate_limit_hmac_secret : Option Text

pub data RequestPolicyError : Type 0 where
  invalid_environment invalid_tls_mode production_tls_disabled missing_trusted_proxy :
      RequestPolicyError
  invalid_timeout invalid_body_limit invalid_rate_limit_capacity : RequestPolicyError
  invalid_rate_limit_refill missing_rate_limit_secret : RequestPolicyError

abbrev pub is_production : RuntimeEnvironment → Bool
is_production production = true
is_production _ = false

abbrev pub is_disabled : TlsMode → Bool
is_disabled disabled = true
is_disabled _ = false

abbrev pub is_trusted_proxy : TlsMode → Bool
is_trusted_proxy trusted_proxy = true
is_trusted_proxy _ = false

-- The names of the environments, in lower case.
abbrev pub environment_of : Text → Result RequestPolicyError RuntimeEnvironment
environment_of name =
    if name == codes "development" || name == codes "dev" || name == codes "local"
    then ok development
    else if name == codes "test" || name == codes "testing"
    then ok test
    else if name == codes "staging" || name == codes "stage"
    then ok staging
    else if name == codes "production" || name == codes "prod"
    then ok production
    else err invalid_environment

abbrev pub tls_mode_of : Text → Result RequestPolicyError TlsMode
tls_mode_of name =
    if name == codes "disabled"
    then ok disabled
    else if name == codes "in-process" || name == codes "in_process"
    then ok in_process
    else if name == codes "trusted-proxy" || name == codes "trusted_proxy"
    then ok trusted_proxy
    else err invalid_tls_mode

abbrev pub text_or : Option Text → String → Text
text_or none default = codes default
text_or (some value) default = value

-- `parse_number`, by the parser of the type.
abbrev pub parse_number : (Text → Option ℕ) → Option Text → ℕ → Option ℕ
parse_number parse none default = some default
parse_number parse (some value) default = parse value

-- `Option::filter`.
abbrev pub filter_value : (ℕ → Bool) → Option ℕ → Option ℕ
filter_value accepts none = none
filter_value accepts (some value) = if accepts value then some value else none

unfoldable pub split_csv : Text → List Text
split_csv value = non_empty (map trim (split (λ c. nat_eq c b',') value))

abbrev pub csv_or_empty : Option Text → List Text
csv_or_empty none = []
csv_or_empty (some value) = split_csv value

abbrev pub no_entries : List Text → Bool
no_entries [] = true
no_entries (_ ∷ _) = false

abbrev pub is_absent : Option Text → Bool
is_absent none = true
is_absent (some _) = false

module _ (parsers : Parsers) (lookup : Lookup) where
  -- A numeric setting with its parser, default and test.
  abbrev pub number_setting :
      String → (Text → Option ℕ) → ℕ → (ℕ → Bool) → RequestPolicyError → Result RequestPolicyError ℕ
  number_setting name parse default accepts error =
      ok_or error (filter_value accepts (parse_number parse (optional lookup name) default))

  -- The settings that follow the TLS mode and the proxies.
  unfoldable pub with_limits :
      RuntimeEnvironment → TlsMode → List Text → Result RequestPolicyError RequestPolicy
  with_limits environment tls_mode cidrs =
      and_then
        (number_setting "ORES_MIDDLEWARE_TIMEOUT_MS" (parse_unsigned (2 ^ 64)) 10000 (ltb 0)
          invalid_timeout)
        λ timeout_ms.
          and_then
            (number_setting "ORES_MIDDLEWARE_MAX_BODY_BYTES" (parse_unsigned (2 ^ 64)) (256 * 1024)
              (λ value. ltb 0 value && leb value (2 * 1024 * 1024)) invalid_body_limit)
            λ max_body_bytes.
              and_then
                (number_setting "ORES_MIDDLEWARE_RATE_LIMIT_CAPACITY" (parse_unsigned (2 ^ 32)) 60
                  (ltb 0) invalid_rate_limit_capacity)
                λ capacity.
                  and_then
                    (number_setting "ORES_MIDDLEWARE_RATE_LIMIT_REFILL_PER_SECOND" parsers.parse_f64
                      f64_one (λ value. is_finite value && is_positive value)
                      invalid_rate_limit_refill)
                    λ refill.
                      let secret = optional lookup "ORES_MIDDLEWARE_RATE_LIMIT_HMAC_SECRET" in
                      if is_production environment && is_absent secret
                      then err missing_rate_limit_secret
                      else ok (record {
                        environment = environment;
                        tls_mode = tls_mode;
                        trusted_proxy_cidrs = cidrs;
                        timeout_ms = timeout_ms;
                        max_body_bytes = max_body_bytes;
                        rate_limit_capacity = capacity;
                        rate_limit_refill_per_second = refill;
                        rate_limit_hmac_secret = secret;
                      })

  -- `RequestPolicy::from_lookup`.
  unfoldable pub policy_from_lookup : Result RequestPolicyError RequestPolicy
  unfolding with_limits
  policy_from_lookup =
      and_then
        (environment_of (to_ascii_lowercase (text_or (optional lookup "APP_ENV") "development")))
        λ environment.
          and_then
            (tls_mode_of (
              to_ascii_lowercase (text_or (optional lookup "ORES_MIDDLEWARE_TLS_MODE") "disabled")))
            λ tls_mode.
              if is_production environment && is_disabled tls_mode
              then err production_tls_disabled
              else let cidrs =
                  csv_or_empty (optional lookup "ORES_MIDDLEWARE_TRUSTED_PROXY_CIDRS") in
                if is_trusted_proxy tls_mode && no_entries cidrs
                then err missing_trusted_proxy
                else with_limits environment tls_mode cidrs
