-- ===== src/Api/Cors.antt =====
-- src/api.rs: the origins that `cors_layer` allows.
pub mod Laws
pub mod Exact
use hhm_api_server_rs.Common.{
  is_some, ℕ, Bool, true, false, not, ◌||◌, Option, none, some, List, [], ◌∷◌, ◌++◌, Text, Text-Eq,
  codes, split, trim, non_empty, nat_eq, any, map, ◌==◌, if◌then◌else◌,
}
use hhm_api_server_rs.Common.Result.{Result, ok, err, and_then, ok_or}

-- A URI by the accessors of the crate `http`.
pub record Uri : Type 0 where
  pub scheme_str : Option Text
  pub authority : Option Text
  pub path : Text
  pub query : Option Text

-- Why `cors_layer` fails: a wildcard, an item that is no exact HTTPS origin, one that the crate
-- `http` does not parse, or no item at all.
pub data CorsError : Type 0 where
  wildcard not_exact unparsable no_origin : CorsError

module _ (parse_uri : Text → Option Uri) (parse_header : Text → Option Text) where
  abbrev pub is_https : Option Text → Bool
  is_https none = false
  is_https (some scheme) = scheme == codes "https"

  abbrev pub exact : Uri → Bool
  exact uri = not (
      not (is_https uri.scheme_str)
      || not (is_some uri.authority)
      || not (uri.path == codes "/")
      || is_some uri.query)

  -- One round of the loop: the header value of an item.
  abbrev pub origin_header : Text → Result CorsError Text
  origin_header origin =
      if origin == codes "*"
      then err wildcard
      else and_then (ok_or unparsable (parse_uri origin))
          λ uri. if not (exact uri) then err not_exact else ok_or unparsable (parse_header origin)

  abbrev pub push_new : List Text → Text → List Text
  push_new origins header =
      if any (λ o. o == header) origins then origins else origins ++ header ∷ []

  unfoldable pub collect_origins : List Text → List Text → Result CorsError (List Text)
  collect_origins origins [] = ok origins
  collect_origins origins (item ∷ items) = elim (origin_header item) [
    | ok header ↦ collect_origins (push_new origins header) items
    | err e ↦ err e
    | Result.panic ↦ Result.panic
  ]

  -- The list that `AllowOrigin::list` is given.
  unfoldable pub cors_origins : Text → Result CorsError (List Text)
  unfolding collect_origins
  cors_origins raw =
      and_then (collect_origins [] (non_empty (map trim (split (λ c. nat_eq c b',') raw))))
        λ origins. elim origins [ [] ↦ err no_origin | x ∷ xs ↦ ok (x ∷ xs) ]
