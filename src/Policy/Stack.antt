-- ===== src/Policy/Stack.antt =====
-- src/middleware.rs: `stack_from_policy`, the configuration that the lifecycle is built from.
pub mod Hardened
use hhm_api_server_rs.Common.{
  ℕ, Bool, true, not, Option, none, some, String, List, [], ◌∷◌, Text, bytes, if◌then◌else◌,
}
use hhm_api_server_rs.Common.Result.{Result, ok, err, panic, and_then, map_err, ok_or}
use hhm_api_server_rs.Policy.{
  RuntimeEnvironment, RequestPolicy, as_contract_value, is_production, is_disabled,
}

pub data RateLimitSignal : Type 0 where
  ip route method : RateLimitSignal

pub data RateLimitFailureMode : Type 0 where
  fail_closed local_only : RateLimitFailureMode

pub data RateLimitKeyDerivationMode : Type 0 where
  external_hmac_sha256 ephemeral_hmac_sha256 : RateLimitKeyDerivationMode

-- The configuration of the crate `ores-middleware`: what the program sets, and all else as a text.
pub record MiddlewareConfig : Type 0 where
  pub environment : RuntimeEnvironment
  pub timeout_ms : ℕ
  pub max_body_bytes : ℕ
  pub tls_mode : String
  pub require_https : Bool
  pub strict_forwarded_headers : Bool
  pub trusted_proxy_cidrs : List Text
  pub capacity : ℕ
  pub refill_per_second : ℕ
  pub key_by : List RateLimitSignal
  pub failure_mode : RateLimitFailureMode
  pub key_derivation : RateLimitKeyDerivationMode
  pub otel_enabled : Bool
  pub otel_service_name : String
  pub otel_propagators : List String
  pub others : Text

-- The crate: its defaults for a service, the constructor, which may find issues, and the
-- installation of a key.
pub record Middleware (S : Type 0) : Type 0 where
  pub default_config : String → MiddlewareConfig
  pub new : MiddlewareConfig → Option S
  pub with_rate_limit_hmac_key : S → List ℕ → Option S

-- The two errors of `stack_from_policy`; the issues are only named in the first one's text.
pub data StackError : Type 0 where
  invalid_policy invalid_key : StackError

module _ {S : Type 0} (middleware : Middleware S) (policy : RequestPolicy) where
  -- The configuration that is passed to `MiddlewareStack::new`.
  unfoldable pub stack_config : MiddlewareConfig
  stack_config = record (middleware.default_config "hhm-api") {
    environment = policy.environment;
    timeout_ms = policy.timeout_ms;
    max_body_bytes = policy.max_body_bytes;
    tls_mode = as_contract_value policy.tls_mode;
    require_https = not (is_disabled policy.tls_mode);
    strict_forwarded_headers = true;
    trusted_proxy_cidrs = policy.trusted_proxy_cidrs;
    capacity = policy.rate_limit_capacity;
    refill_per_second = policy.rate_limit_refill_per_second;
    key_by = ip ∷ route ∷ method ∷ [];
    failure_mode = if is_production policy.environment then fail_closed else local_only;
    key_derivation =
        if is_production policy.environment then external_hmac_sha256 else ephemeral_hmac_sha256;
    otel_enabled = true;
    otel_service_name = "hhm-api";
    otel_propagators = "tracecontext" ∷ "baggage" ∷ [];
  }

  abbrev pub with_key : Option Text → S → Result StackError S
  with_key none stack = ok stack
  with_key (some secret) stack =
      ok_or invalid_key (middleware.with_rate_limit_hmac_key stack (bytes secret))

  unfoldable pub stack_from_policy : Result StackError S
  unfolding stack_config
  stack_from_policy =
      and_then (ok_or invalid_policy (middleware.new stack_config))
        (with_key policy.rate_limit_hmac_secret)
