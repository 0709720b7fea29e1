-- ===== src/Policy/Stack/Hardened.antt =====
-- src/middleware.rs: the stack that a production policy is built into.
use hhm_api_server_rs.Common.{
  ◌≡◌, ◌≢◌, refl, ◌⊎◌, inl, inr, true, false, some, Text, bytes, is_empty, not,
}
use hhm_api_server_rs.Common.Result.{ok, and_then-eq-ok, ok_or, ok_or-eq-ok}
use hhm_api_server_rs.Policy.{
  RuntimeEnvironment, production, RequestPolicy, TlsMode, disabled, in_process, trusted_proxy,
  is_disabled,
}
use hhm_api_server_rs.Policy.Laws.{IsSafe}
use hhm_api_server_rs.Policy.Stack.{
  Middleware, fail_closed, external_hmac_sha256, stack_config, stack_from_policy, with_key,
  invalid_policy, invalid_key,
}

-- A stack of the crate that serves production: the configuration insists on HTTPS, refuses when
-- its limiter fails and takes the limiter's keys from outside, and a key that is not empty is
-- installed.
pub record IsHardened {S : Type 0} (middleware : Middleware S) (policy : RequestPolicy) (stack : S)
    : Type 0 where
  pub https : (stack_config middleware policy).require_https ≡ true
  pub closed : (stack_config middleware policy).failure_mode ≡ fail_closed
  pub external : (stack_config middleware policy).key_derivation ≡ external_hmac_sha256
  pub forwarded : (stack_config middleware policy).strict_forwarded_headers ≡ true
  pub keyed :
      (secret : Text) × (base : S) × (is_empty secret ≡ false)
      × (middleware.new (stack_config middleware policy) ≡ some base)
      × (middleware.with_rate_limit_hmac_key base (bytes secret) ≡ some stack)

enabled : (m : TlsMode) → ((m ≡ disabled → ⊥)) → not (is_disabled m) ≡ true
enabled disabled h = absurd (h refl)
enabled in_process h = refl
enabled trusted_proxy h = refl

in_production : {e : RuntimeEnvironment} {P : Type 0} → e ≡ production → (e ≢ production) ⊎ P → P
in_production live (inl other) = absurd (other live)
in_production live (inr p) = p

module _ {S : Type 0} (middleware : Middleware S) where
  -- A stack that is built from a safe production policy is hardened.
  pub stack_from_policy-IsHardened :
      {policy : RequestPolicy} {stack : S}
      → IsSafe policy
      → policy.environment ≡ production
      → stack_from_policy middleware policy ≡ ok stack
      → IsHardened middleware policy stack
  unfolding stack_from_policy stack_config
  stack_from_policy-IsHardened {policy} {stack} safe live h =
      let on = in_production live safe.encrypted in
      let (secret, found, filled) = in_production live safe.keyed in
      let (base, created, installed) =
        and_then-eq-ok (ok_or invalid_policy (middleware.new (stack_config middleware policy)))
          (with_key middleware policy policy.rate_limit_hmac_secret) h in
      let keyed : with_key middleware policy (some secret) base ≡ ok stack =
        rw found at installed in
      record {
        https = enabled policy.tls_mode on;
        closed = rw live refl;
        external = rw live refl;
        forwarded = refl;
        keyed = (
          secret,
          base,
          filled,
          ok_or-eq-ok invalid_policy (middleware.new (stack_config middleware policy)) created,
          ok_or-eq-ok invalid_key (middleware.with_rate_limit_hmac_key base (bytes secret)) keyed,
        );
      }
