-- ===== src/Tests/Edges.antt =====
-- Runs at the edges of the program: digests, tokens, responses, origins.
use hhm_api_server_rs.Common.{
  ℕ, ◌≡◌, ◌≤◌, ◌↔◌, refl, true, any, All, map, Option, none, some, List, [], ◌∷◌, ◌++◌, Text,
  Text-Eq, codes, ◌==◌, split_ascii_whitespace, joined, arith,
}
use hhm_api_server_rs.Common.Result.{ok}
use hhm_api_server_rs.Hex.{lower_hex}
use hhm_api_server_rs.Hex.Laws.{decode_hex, IsByte, decode_hex-lower_hex}
use hhm_api_server_rs.Persistence.Error.{idempotency_conflict}
use hhm_api_server_rs.Auth.{
  max_response_bytes, forbidden, authorize_introspection, bounded_response,
}
use hhm_api_server_rs.Auth.Laws.{bounded_response-eq-ok, authorize_introspection_iff}
use hhm_api_server_rs.External.{rejected}
use hhm_api_server_rs.Api.Failure.{from_auth, from_data, from_external}
use hhm_api_server_rs.Api.Failure.Laws.{IsConsistent, from_errors-IsConsistent}
use hhm_api_server_rs.Api.Request.{
  object, Json, canonical_digest_without_turnstile, idempotency_key, source_host,
  submission_context,
}
use hhm_api_server_rs.Api.Request.Laws.{IsSha256, submission_context-accepts}
use hhm_api_server_rs.Api.Cors.{Uri, collect_origins, cors_origins}
use hhm_api_server_rs.Api.Cors.Exact.{AreOrigins}
use hhm_api_server_rs.Api.Cors.Laws.{cors_origins-AreOrigins}
use hhm_api_server_rs.Tests.Data.{
  services, constant_sha256, key_text, digest_text, public_headers, introspection, context,
}

abbrev some_bytes : List ℕ
some_bytes = 0 ∷ 171 ∷ 255 ∷ []

are_bytes : All IsByte some_bytes
are_bytes = (omega arith, (omega arith, (omega arith, tt)))

decode_hex-lower_hex_example : decode_hex (lower_hex some_bytes) ≡ some_bytes
decode_hex-lower_hex_example = decode_hex-lower_hex some_bytes are_bytes

constant-IsSha256 : IsSha256 constant_sha256
constant-IsSha256 = record { sized = λ xs. refl; made_of_bytes = λ xs. zeros }
  where
    zeros : All IsByte (constant_sha256 [])
    zeros = ground arith

from_errors-IsConsistent_example :
    IsConsistent (from_auth forbidden)
    × IsConsistent (from_data idempotency_conflict)
    × IsConsistent (from_external rejected)
from_errors-IsConsistent_example = from_errors-IsConsistent forbidden idempotency_conflict rejected

-- Two bodies that differ in their tokens only.
abbrev tokens : Json Text
tokens = record {
  to_value = λ token.
      some (object (("email", codes "a") ∷ ("turnstileToken", token) ∷ ("idea", codes "b") ∷ []));
  value_to_vec = λ _. some (1 ∷ []);
  to_vec = λ token. some token;
}

key_run : idempotency_key public_headers ≡ ok key_text
unfolding idempotency_key
key_run = refl

host_run : source_host services public_headers ≡ ok (codes "hhaus.org")
unfolding source_host
host_run = refl

digest_run : canonical_digest_without_turnstile services tokens (codes "x") ≡ ok digest_text
unfolding canonical_digest_without_turnstile lower_hex
digest_run = refl

submission_context-accepts_example :
    submission_context services 7 none public_headers digest_text ≡ ok context
submission_context-accepts_example =
    submission_context-accepts services tokens constant-IsSha256 7 none public_headers (codes "x")
      key_run refl host_run digest_run

abbrev body : List (Option (List ℕ))
body = some (1 ∷ []) ∷ some (2 ∷ 3 ∷ []) ∷ []

body_run : bounded_response [] body ≡ ok (1 ∷ 2 ∷ 3 ∷ [])
unfolding bounded_response
body_run = refl

bounded_response-eq-ok_example :
    (read : List (List ℕ)) × (body ≡ map some read)
    × (1 ∷ 2 ∷ 3 ∷ [] ≡ [] ++ joined read)
    × (3 ≤ max_response_bytes)
bounded_response-eq-ok_example = bounded_response-eq-ok [] body (omega arith) body_run

authorize_introspection_iff_example :
    (authorize_introspection introspection (codes "hhm") ≡ ok tt) ↔ (
      (introspection.active ≡ true)
      × (introspection.aud ≡ some (codes "hhm"))
      × ((scope : Text) × (introspection.scope ≡ some scope)
          × (any (λ c. c == codes "hhm:intake:write") (split_ascii_whitespace scope) ≡ true)))
authorize_introspection_iff_example = authorize_introspection_iff introspection (codes "hhm")

abbrev parse_uri : Text → Option Uri
parse_uri _ = some (record {
  scheme_str = some (codes "https");
  authority = some (codes "hhaus.org");
  path = codes "/";
  query = none;
})

abbrev parse_header : Text → Option Text
parse_header origin = some origin

abbrev origins : Text
origins = codes " https://a.org, https://b.org,,https://a.org"

cors_run :
    cors_origins parse_uri parse_header origins
    ≡ ok (codes "https://a.org" ∷ codes "https://b.org" ∷ [])
unfolding cors_origins collect_origins
cors_run = refl

cors_origins-AreOrigins_example :
    AreOrigins parse_uri parse_header origins (codes "https://a.org" ∷ codes "https://b.org" ∷ [])
cors_origins-AreOrigins_example = cors_origins-AreOrigins parse_uri parse_header origins cors_run
