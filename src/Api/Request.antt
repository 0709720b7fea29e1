-- ===== src/Api/Request.antt =====
-- src/api.rs: what a handler reads from the headers and the body of a request.
pub mod Laws
use hhm_api_server_rs.Common.{
  is_some, ℕ, Bool, true, false, not, ◌&&◌, ◌||◌, Option, none, some, List, [], ◌∷◌, String, Text,
  Text-Eq, String-Eq, codes, len, any, is_whitespace, is_control, within, ◌==◌, if◌then◌else◌,
}
use hhm_api_server_rs.Common.Result.{Result, ok, err, panic, and_then, map_err, ok_or}
use hhm_api_server_rs.Hex.{lower_hex}
use hhm_api_server_rs.Http.{Url, Header, missing, opaque, visible, HeaderMap, Outside}
use hhm_api_server_rs.Persistence.Context.{
  Uuid, VerifiedSubject, SubmissionContext, public, authenticated,
}
use hhm_api_server_rs.Auth.{optional_subject}
use hhm_api_server_rs.External.{is_site, verify_turnstile}
use hhm_api_server_rs.Api.Failure.{ApiFailure, invalid_request, from_data, from_auth, from_external}
use hhm_api_server_rs.Api.State.{AppState}

-- A JSON value as `serde_json::to_value` builds it: an object by its members, in the order in
-- which they are written out, each with the text of its value; or any other value.
pub data Value : Type 0 where
  object : List (String × Text) → Value
  scalar : Text → Value

-- The JSON crate for one type of request body.
pub record Json (I : Type 0) : Type 0 where
  pub to_value : I → Option Value
  pub value_to_vec : Value → Option (List ℕ)
  pub to_vec : I → Option (List ℕ)

-- `Map::remove`.
abbrev pub remove : String → List (String × Text) → List (String × Text)
remove key [] = []
remove key ((k, v) ∷ members) =
    let rest = remove key members in if k == key then rest else (k, v) ∷ rest

abbrev pub as_object : Value → Option (List (String × Text))
as_object (object members) = some members
as_object (scalar _) = none

module _ (outside : Outside) {I : Type 0} (json : Json I) where
  abbrev pub digest_of : Option (List ℕ) → Result ApiFailure Text
  digest_of encoded =
      and_then (ok_or invalid_request encoded) λ bytes. ok (lower_hex (outside.sha256 bytes))

  unfoldable pub canonical_digest : I → Result ApiFailure Text
  canonical_digest input = digest_of (json.to_vec input)

  unfoldable pub canonical_digest_without_turnstile : I → Result ApiFailure Text
  canonical_digest_without_turnstile input =
      and_then (ok_or invalid_request (json.to_value input)) λ value.
        and_then (ok_or invalid_request (as_object value))
          λ members. digest_of (json.value_to_vec (object (remove "turnstileToken" members)))

abbrev pub visible_text : Header → Result ApiFailure Text
visible_text missing = err invalid_request
visible_text opaque = err invalid_request
visible_text (visible value) = ok value

unfoldable pub idempotency_key : HeaderMap → Result ApiFailure Text
idempotency_key headers = and_then (visible_text headers.idempotency_key) λ value.
    if not (within 16 128 (len value)) || any is_whitespace value || any is_control value
    then err invalid_request
    else ok value

unfoldable pub source_host : Outside → HeaderMap → Result ApiFailure Text
source_host outside headers = and_then (visible_text headers.origin) λ origin.
    and_then (ok_or invalid_request (outside.parse_url origin)) λ url.
      if not (url.scheme == codes "https")
        || not (url.path == codes "/")
        || is_some url.query
        || is_some url.fragment
      then err invalid_request
      else and_then (ok_or invalid_request url.host_str)
          λ host. if not (is_site host) then err invalid_request else ok host

-- The subject decides between the two constructors of a context.
abbrev pub context_for :
    Uuid → Option VerifiedSubject → Text → Text → Text → Result ApiFailure SubmissionContext
context_for fresh none key digest host = map_err from_data (public fresh key digest host)
context_for fresh (some subject) key digest host =
    map_err from_data (authenticated fresh subject key digest host)

unfoldable pub submission_context :
    Outside → Uuid → Option VerifiedSubject → HeaderMap → Text → Result ApiFailure SubmissionContext
unfolding idempotency_key source_host
submission_context outside fresh subject headers payload_sha256 =
    and_then (idempotency_key headers) λ key.
      and_then (source_host outside headers)
        λ host. context_for fresh subject key payload_sha256 host

module _ (state : AppState) (headers : HeaderMap) (proof : Option Text) where
  -- Turnstile stands in for a subject where there is none.
  abbrev pub or_verify_public : Option VerifiedSubject → Result ApiFailure (Option VerifiedSubject)
  or_verify_public (some subject) = ok (some subject)
  or_verify_public none = and_then (ok_or invalid_request proof) λ token.
      and_then (map_err from_external (verify_turnstile state.outside state.expected_action token))
        λ _. ok none

  unfoldable pub authenticate_or_verify_public : Result ApiFailure (Option VerifiedSubject)
  authenticate_or_verify_public =
      and_then (map_err from_auth (optional_subject state.outside state.audience headers))
        or_verify_public
