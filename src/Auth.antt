-- ===== src/Auth.antt =====
-- src/auth.rs: the bearer token and the Shared Auth adapter.
pub mod Laws
pub mod Build
use hhm_api_server_rs.Common.{
  ℕ, ◌+◌, ◌*◌, ◌^◌, Bool, true, false, not, ◌&&◌, ◌||◌, Option, none, some, List, [], ◌∷◌, ◌++◌,
  Text, Text-Eq, Option-Eq, codes, len, length, any, is_empty, is_whitespace, split_once,
  split_ascii_whitespace, eq_ignore_ascii_case, ltb, nat_eq, ◌==◌, option_eq, if◌then◌else◌,
}
use hhm_api_server_rs.Common.Result.{Result, ok, err, panic, and_then, map_err, ok_or}
use hhm_api_server_rs.Persistence.Context.{VerifiedSubject, from_verified_claim}
use hhm_api_server_rs.Http.{
  Header, missing, opaque, visible, HeaderMap, Response, is_success, is_server_error, Introspection,
  Outside,
}

abbrev pub max_credential_bytes : ℕ
max_credential_bytes = 16 * 1024

abbrev pub max_response_bytes : ℕ
max_response_bytes = 1024 * 1024

pub data AuthError : Type 0 where
  missing_bearer invalid forbidden unavailable : AuthError

-- `bearer_token` on a header that is there, split at its first space.
abbrev pub bearer_parts : Option (Text × Text) → Result AuthError (Option Text)
bearer_parts none = err invalid
bearer_parts (some (scheme, token)) =
    if not (eq_ignore_ascii_case scheme (codes "bearer"))
      || is_empty token
      || ltb max_credential_bytes (len token)
      || any is_whitespace token
    then err invalid
    else ok (some token)

unfoldable pub bearer_token : Header → Result AuthError (Option Text)
bearer_token missing = ok none
bearer_token opaque = err invalid
bearer_token (visible raw) = bearer_parts (split_once b' ' raw)

abbrev pub scope_lists : Option Text → Text → Bool
scope_lists none required = false
scope_lists (some scope) required =
    any (λ candidate. candidate == required) (split_ascii_whitespace scope)

unfoldable pub has_scope : Introspection → Text → Bool
has_scope self required = self.active && scope_lists self.scope required

unfoldable pub authorize_introspection : Introspection → Text → Result AuthError (Unit {0})
unfolding has_scope
authorize_introspection introspection audience =
    if not introspection.active || not (option_eq introspection.aud (some audience))
    then err invalid
    else if not (has_scope introspection (codes "hhm:intake:write"))
    then err forbidden
    else ok tt

-- The body so far and the chunks to come. `checked_add` of two `usize` fails from 2 ^ 64.
unfoldable pub bounded_response : List ℕ → List (Option (List ℕ)) → Result AuthError (List ℕ)
bounded_response body [] = ok body
bounded_response body (none ∷ chunks) = err unavailable
bounded_response body (some chunk ∷ chunks) =
    let next_len = length body + length chunk in
    let rest = bounded_response (body ++ chunk) chunks in
    if not (ltb next_len (2 ^ 64))
    then err invalid
    else if ltb max_response_bytes next_len
    then err invalid
    else rest

abbrev pub too_long : Option ℕ → Bool
too_long none = false
too_long (some length) = ltb max_response_bytes length

-- `sub` is there and not empty.
abbrev pub subject_claim : Option Text → Result AuthError Text
subject_claim none = err invalid
subject_claim (some sub) = if is_empty sub then err invalid else ok sub

module _ (outside : Outside) (audience : Text) where
  -- `verify`, from the response on.
  unfoldable pub verify_response : Response → Result AuthError VerifiedSubject
  verify_response response =
      if is_server_error response.status
      then err unavailable
      else if nat_eq response.status 401 || not (is_success response.status)
      then err invalid
      else if too_long response.content_length
      then err invalid
      else and_then (bounded_response [] response.chunks) λ bytes.
        and_then (ok_or invalid (outside.parse_introspection bytes)) λ introspection.
          and_then (authorize_introspection introspection audience) λ _.
            and_then (subject_claim introspection.sub)
              λ sub. map_err (λ _. invalid) (from_verified_claim sub)

  unfoldable pub verify : Text → Result AuthError VerifiedSubject
  unfolding verify_response
  verify token = and_then (ok_or unavailable (outside.introspect token)) verify_response

  abbrev pub verify_optional : Option Text → Result AuthError (Option VerifiedSubject)
  verify_optional none = ok none
  verify_optional (some token) = and_then (verify token) λ subject. ok (some subject)

  unfoldable pub optional_subject : HeaderMap → Result AuthError (Option VerifiedSubject)
  unfolding bearer_token
  optional_subject headers = and_then (bearer_token headers.authorization) verify_optional

  unfoldable pub required_subject : HeaderMap → Result AuthError VerifiedSubject
  unfolding bearer_token
  required_subject headers =
      and_then (bearer_token headers.authorization)
        λ found. and_then (ok_or missing_bearer found) verify
