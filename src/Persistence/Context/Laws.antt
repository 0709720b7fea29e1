-- ===== src/Persistence/Context/Laws.antt =====
-- What `SubmissionContext::new` and `VerifiedSubject::from_verified_claim` let through.
use hhm_api_server_rs.Common.{
  ◌≡◌, ◌≤◌, true, false, Option, Text, arith, len, any, trim, is_empty, is_control, text_eq_iff,
  to_ascii_lowercase, Bool-cases,
}
use hhm_api_server_rs.Common.Result.{ok}
use hhm_api_server_rs.Persistence.Context.{
  Uuid, VerifiedSubject, from_verified_claim, SubmissionContext, new_context, valid_key,
  valid_digest, valid_host,
}

module _ (fresh : Uuid) (subject : Option VerifiedSubject) (key digest host : Text) where
  pub new_context-eq-ok :
      {context : SubmissionContext}
      → new_context fresh subject key digest host ≡ ok context
      → (valid_key key ≡ true)
        × (valid_digest digest ≡ true)
        × (valid_host (to_ascii_lowercase host) ≡ true)
        × (context ≡ record {
          canonical_id = fresh;
          subject = subject;
          idempotency_key = key;
          payload_sha256 = digest;
          source_host = to_ascii_lowercase host;
        })
  unfolding new_context
  new_context-eq-ok h = ground (
    arith,
    Bool-cases (valid_key key),
    Bool-cases (valid_digest digest),
    Bool-cases (valid_host (to_ascii_lowercase host)),
  )

  pub new_context-accepts :
      valid_key key ≡ true
      → valid_digest digest ≡ true
      → valid_host (to_ascii_lowercase host) ≡ true
      → new_context fresh subject key digest host
        ≡ ok (record {
          canonical_id = fresh;
          subject = subject;
          idempotency_key = key;
          payload_sha256 = digest;
          source_host = to_ascii_lowercase host;
        })
  unfolding new_context
  new_context-accepts a b c = rw (a, b, c)

-- A subject that was let through is the claim itself: not empty, at most 255 bytes, without
-- surrounding white space and without control characters.
pub from_verified_claim-eq-ok :
    (value : Text) {subject : VerifiedSubject}
    → from_verified_claim value ≡ ok subject
    → (subject.as_str ≡ value)
      × (is_empty value ≡ false)
      × (len value ≤ 255)
      × (trim value ≡ value)
      × (any is_control value ≡ false)
unfolding from_verified_claim
from_verified_claim-eq-ok value h = ground (arith, text_eq_iff (trim value) value)
