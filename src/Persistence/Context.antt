-- ===== src/Persistence/Context.antt =====
-- src/persistence.rs: `VerifiedSubject` and `SubmissionContext`.
pub mod Laws
use hhm_api_server_rs.Common.{
  ℕ, Bool, not, ◌&&◌, ◌||◌, Option, none, some, Text, codes, bytes, len, all, any, is_empty, trim,
  is_control, is_ascii_alphanumeric, is_ascii_hexdigit, is_ascii_uppercase, to_ascii_lowercase, ltb,
  within, nat_eq, ◌==◌, Text-Eq, if◌then◌else◌,
}
use hhm_api_server_rs.Common.Result.{Result, ok, err, and_then, ok_or}
use hhm_api_server_rs.Persistence.Error.{DataError, invalid_context, unauthenticated}

abbrev pub Uuid : Type 0
Uuid = ℕ

pub record VerifiedSubject : Type 0 where
  pub as_str : Text

unfoldable pub from_verified_claim : Text → Result DataError VerifiedSubject
from_verified_claim value =
    if is_empty value || ltb 255 (len value) || not (trim value == value) || any is_control value
    then err (invalid_context "subject")
    else ok (record { as_str = value })

pub record SubmissionContext : Type 0 where
  pub canonical_id : Uuid
  pub subject : Option VerifiedSubject
  pub idempotency_key : Text
  pub payload_sha256 : Text
  pub source_host : Text

-- The bytes that an idempotency key may hold.
abbrev pub is_key_byte : ℕ → Bool
is_key_byte b =
    is_ascii_alphanumeric b || nat_eq b b'-' || nat_eq b b'_' || nat_eq b b':' || nat_eq b b'.'

abbrev pub is_lower_hex_byte : ℕ → Bool
is_lower_hex_byte b = is_ascii_hexdigit b && not (is_ascii_uppercase b)

abbrev pub valid_key : Text → Bool
valid_key key = within 16 128 (len key) && all is_key_byte (bytes key)

-- The test of `payload_sha256`, and of `observed_sha256` in `verify_upload`.
abbrev pub valid_digest : Text → Bool
valid_digest digest = nat_eq (len digest) 64 && all is_lower_hex_byte (bytes digest)

abbrev pub valid_host : Text → Bool
valid_host host =
    host == codes "hhaus.org"
    || host == codes "www.hhaus.org"
    || host == codes "user.hhaus.org"
    || host == codes "medellin.hhaus.org"
    || host == codes "localhost"
    || host == codes "127.0.0.1"

-- `SubmissionContext::new`; `fresh` is the identifier that `Uuid::new_v4` draws.
unfoldable pub new_context :
    Uuid → Option VerifiedSubject → Text → Text → Text → Result DataError SubmissionContext
new_context fresh subject key digest host =
    let source_host : Text = to_ascii_lowercase host in
    if not (valid_key key)
    then err (invalid_context "idempotency_key")
    else if not (valid_digest digest)
    then err (invalid_context "payload_sha256")
    else if not (valid_host source_host)
    then err (invalid_context "source_host")
    else ok (record {
      canonical_id = fresh;
      subject = subject;
      idempotency_key = key;
      payload_sha256 = digest;
      source_host = source_host;
    })

-- `SubmissionContext::public`.
abbrev pub public : Uuid → Text → Text → Text → Result DataError SubmissionContext
public fresh key digest host = new_context fresh none key digest host

-- `SubmissionContext::authenticated`.
abbrev pub authenticated :
    Uuid → VerifiedSubject → Text → Text → Text → Result DataError SubmissionContext
authenticated fresh subject key digest host = new_context fresh (some subject) key digest host

abbrev pub with_canonical_id : SubmissionContext → Uuid → SubmissionContext
with_canonical_id self id = record self { canonical_id = id }

-- The private `subject` accessor: the text of the subject.
abbrev pub subject_text : Option VerifiedSubject → Option Text
subject_text none = none
subject_text (some s) = some s.as_str

abbrev pub require_subject : SubmissionContext → Result DataError Text
require_subject self = ok_or unauthenticated (subject_text self.subject)
