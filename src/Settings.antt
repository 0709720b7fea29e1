-- ===== src/Settings.antt =====
-- What src/config.rs and src/middleware.rs share: settings by name, and the parsers of other code
-- that they call.
pub mod Numbers
use hhm_api_server_rs.Common.{
  ℕ, Bool, Option, none, some, String, List, Text, is_empty, trim, if◌then◌else◌,
}
use hhm_api_server_rs.Http.{Url}

-- The resolver of `Config::from_resolver`: a setting by its name.
abbrev pub Lookup : Type 0
Lookup = String → Option Text

-- `SocketAddr`, which the program only passes on.
pub record SocketAddr : Type 0 where
  pub ip : Text
  pub port : ℕ

-- The parsers of the standard library and of the crate `url` that are not written out. An `f64` is
-- taken by its IEEE 754 bits.
pub record Parsers : Type 0 where
  pub parse_url : Text → Option Url
  -- `path_segments_mut`, `pop_if_empty`, then `extend`; `none` for a URL that cannot be a base
  pub extend_segments : Url → List Text → Option Url
  pub parse_socket_addr : Text → Option SocketAddr
  pub parse_f64 : Text → Option ℕ

abbrev pub non_empty_text : Text → Option Text
non_empty_text value = if is_empty value then none else some value

abbrev pub trimmed : Option Text → Option Text
trimmed none = none
trimmed (some value) = non_empty_text (trim value)

-- `optional`, which both files define alike.
unfoldable pub optional : Lookup → String → Option Text
optional lookup name = trimmed (lookup name)
