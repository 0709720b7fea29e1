-- ===== src/Http.antt =====
-- What the program sees of other crates and services: parsed URLs, HTTP responses, SHA-256.
use hhm_api_server_rs.Common.{ℕ, Bool, Option, List, Text, leb, ltb, ◌&&◌}

-- A URL by what the accessors of the crate `url` return for it.
pub record Url : Type 0 where
  pub scheme : Text
  pub username : Text
  pub password : Option Text
  pub host_str : Option Text
  pub path : Text
  pub query : Option Text
  pub fragment : Option Text
  pub query_keys : List Text

-- A header by what `to_str` makes of it: absent, not visible ASCII, or a text.
pub data Header : Type 0 where
  missing opaque : Header
  visible : Text → Header

-- The request headers that the program reads.
pub record HeaderMap : Type 0 where
  pub authorization : Header
  pub origin : Header
  pub idempotency_key : Header

-- A response; `chunks` is the body as it arrives, `none` where the transport fails.
pub record Response : Type 0 where
  pub status : ℕ
  pub content_type : Header
  pub content_length : Option ℕ
  pub chunks : List (Option (List ℕ))

abbrev pub is_success : ℕ → Bool
is_success status = leb 200 status && ltb status 300

abbrev pub is_server_error : ℕ → Bool
is_server_error status = leb 500 status && ltb status 600

-- The answer of Shared Auth, and that of Turnstile.
pub record Introspection : Type 0 where
  pub active : Bool
  pub sub : Option Text
  pub aud : Option Text
  pub scope : Option Text

pub record TurnstileResponse : Type 0 where
  pub success : Bool
  pub hostname : Text
  pub action : Text

-- The other crates and the services. An answer that is `none` is a transport error of a request,
-- or a body that does not parse.
pub record Outside : Type 0 where
  pub parse_url : Text → Option Url
  pub join_url : Url → Text → Option Url
  pub sha256 : List ℕ → List ℕ
  -- Shared Auth's introspection endpoint, by the token
  pub introspect : Text → Option Response
  pub parse_introspection : List ℕ → Option Introspection
  -- Turnstile, by the token: the status, and the body if it parses
  pub siteverify : Text → Option (ℕ × Option TurnstileResponse)
  -- Supabase Storage, by the address
  pub sign_upload : Url → Option (ℕ × Option Text)
  pub download : Url → Option Response
