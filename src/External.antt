-- ===== src/External.antt =====
-- src/external.rs: Turnstile and Supabase Storage.
pub mod Laws
use hhm_api_server_rs.Common.{
  ℕ, ◌+◌, ◌*◌, ◌^◌, Bool, true, false, not, ◌&&◌, ◌||◌, Option, none, some, List, [], ◌∷◌, ◌++◌,
  Text, Text-Eq, codes, bytes, len, length, all, any, is_empty, is_control, is_ascii_alphanumeric,
  split, split_from, trim, strip_prefix, starts_with, ltb, nat_eq, ◌==◌, option_eq, if◌then◌else◌,
}
use mathlib.Core.Option
use hhm_api_server_rs.Common.Result.{Result, ok, err, panic, and_then, ok_or}
use hhm_api_server_rs.Hex.{lower_hex}
use hhm_api_server_rs.Http.{
  Url, Header, missing, opaque, visible, Response, is_success, TurnstileResponse, Outside,
}
use hhm_api_server_rs.Persistence.Uploads.{PendingUpload}

abbrev pub max_upload_bytes : ℕ
max_upload_bytes = 10 * 1024 * 1024

pub data ExternalError : Type 0 where
  rejected unavailable object_mismatch invalid_response : ExternalError

abbrev pub is_site : Text → Bool
is_site host =
    host == codes "hhaus.org"
    || host == codes "www.hhaus.org"
    || host == codes "user.hhaus.org"
    || host == codes "medellin.hhaus.org"

module _ (outside : Outside) (expected_action : Text) where
  abbrev pub check_turnstile : TurnstileResponse → Result ExternalError (Unit {0})
  check_turnstile result =
      if not result.success
        || not (result.action == expected_action)
        || not (is_site result.hostname)
      then err rejected
      else ok tt

  -- `TurnstileVerifier::verify`.
  unfoldable pub verify_turnstile : Text → Result ExternalError (Unit {0})
  verify_turnstile token =
      if is_empty token || ltb 4096 (len token) || any is_control token
      then err rejected
      else and_then (ok_or unavailable (outside.siteverify token)) λ response.
        if not (is_success response.0)
        then err unavailable
        else and_then (ok_or invalid_response response.1) check_turnstile

-- A segment of an object key that is refused.
abbrev pub bad_segment : Text → Bool
bad_segment segment =
    is_empty segment
    || segment == codes "."
    || segment == codes ".."
    || not (all (λ b. is_ascii_alphanumeric b || nat_eq b b'-' || nat_eq b b'_') (bytes segment))

unfoldable pub validate_object_key : Text → Result ExternalError (Unit {0})
validate_object_key value =
    if is_empty value
      || ltb 1024 (len value)
      || starts_with (codes "/") value
      || any bad_segment (split (λ c. nat_eq c b'/') value)
    then err invalid_response
    else ok tt

-- The stream of `verify_object`: the bytes counted and digested so far, and the chunks to come.
module _ (expected : PendingUpload) where
  unfoldable pub stream_object :
      ℕ → List ℕ → List (Option (List ℕ)) → Result ExternalError (ℕ × List ℕ)
  stream_object observed_size digest [] = ok (observed_size, digest)
  stream_object observed_size digest (none ∷ chunks) = err unavailable
  stream_object observed_size digest (some chunk ∷ chunks) =
      let next_size = observed_size + length chunk in
      let rest = stream_object next_size (digest ++ chunk) chunks in
      if not (ltb next_size (2 ^ 64))
      then err object_mismatch
      else if ltb expected.size_bytes next_size || ltb max_upload_bytes next_size
      then err object_mismatch
      else rest

-- `content-type` up to its first `;`, trimmed.
abbrev pub mime_type : Header → Option Text
mime_type missing = none
mime_type opaque = none
mime_type (visible value) = some (trim (split_from (λ c. nat_eq c b';') value).0)

abbrev pub other_length : Option ℕ → ℕ → Bool
other_length none size = false
other_length (some length) size = not (nat_eq length size)

module _ (outside : Outside) (project_url : Url) where
  abbrev pub storage_base : Result ExternalError Url
  storage_base = ok_or invalid_response (outside.join_url project_url (codes "storage/v1/"))

  abbrev pub join_base : Url → Text → Result ExternalError Url
  join_base base path = ok_or invalid_response (outside.join_url base path)

  module _ (expected : PendingUpload) where
    -- The checks after the last chunk.
    abbrev pub check_object : ℕ × List ℕ → Result ExternalError (Unit {0})
    check_object (observed_size, digest) =
        if not (nat_eq observed_size expected.size_bytes)
          || not (lower_hex (outside.sha256 digest) == expected.expected_sha256)
        then err object_mismatch
        else ok tt

    -- `verify_object`, from the response on.
    unfoldable pub verify_download : Response → Result ExternalError (Unit {0})
    verify_download response =
        if not (is_success response.status)
        then err object_mismatch
        else and_then (ok_or object_mismatch (mime_type response.content_type)) λ content_type.
          if not (content_type == expected.content_type)
          then err object_mismatch
          else if other_length response.content_length expected.size_bytes
          then err object_mismatch
          else and_then (stream_object expected 0 [] response.chunks) check_object

    unfoldable pub verify_object : Result ExternalError (Unit {0})
    unfolding verify_download
    verify_object = and_then (validate_object_key expected.object_key) λ _.
        if ltb max_upload_bytes expected.size_bytes
        then err object_mismatch
        else and_then storage_base λ base.
          and_then
            (join_base base
              (codes "object/authenticated/hhm-intake-private/" ++ expected.object_key))
            λ endpoint. and_then (ok_or unavailable (outside.download endpoint)) verify_download

  -- The address that the storage service signed: absolute, or below the storage base.
  abbrev pub signed_address : Url → Text → Result ExternalError Url
  signed_address base signed =
      if starts_with (codes "https://") signed
      then ok_or invalid_response (outside.parse_url signed)
      else let suffix = Option.get_or (strip_prefix (codes "/") signed) signed in
        let rest = Option.get_or (strip_prefix (codes "object/") suffix) suffix in
        join_base base (codes "object/" ++ rest)

  abbrev pub check_signed : Url → Result ExternalError Url
  check_signed signed_url =
      if not (signed_url.scheme == codes "https")
        || not (option_eq signed_url.host_str project_url.host_str)
        || not (starts_with (codes "/storage/v1/object/upload/sign/") signed_url.path)
        || all (λ key. not (key == codes "token")) signed_url.query_keys
      then err invalid_response
      else ok signed_url

  unfoldable pub create_signed_upload_url : Text → Result ExternalError Url
  create_signed_upload_url object_key = and_then (validate_object_key object_key) λ _.
      and_then storage_base λ base.
        and_then (join_base base (codes "object/upload/sign/hhm-intake-private/" ++ object_key))
          λ endpoint. and_then (ok_or unavailable (outside.sign_upload endpoint)) λ response.
            if not (is_success response.0)
            then err unavailable
            else and_then (ok_or invalid_response response.1)
                λ signed. and_then (signed_address base signed) check_signed
