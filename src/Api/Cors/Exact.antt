-- ===== src/Api/Cors/Exact.antt =====
-- src/api.rs: the items of the list that `cors_layer` reads, and what it lets through of them.
use hhm_api_server_rs.Common.{
  ◌≡◌, ◌≢◌, ap, Option-cases, none, inl, inr, true, false, not, Option, some, List, [], ◌∷◌, Text,
  Text-Eq, codes, arith, any, split, trim, non_empty, nat_eq, map, text_eq_iff, ◌==◌,
}
use hhm_api_server_rs.Common.Result.{ok, and_then-eq-ok, ok_or, ok_or-eq-ok, else-eq-ok}
use hhm_api_server_rs.Api.Cors.{
  Uri, wildcard, not_exact, unparsable, is_https, exact, origin_header,
}

-- No origin stands twice in the list.
abbrev pub Distinct : List Text → Type 0
Distinct [] = Unit {0}
Distinct (x ∷ xs) = (any (λ o. o == x) xs ≡ false) × Distinct xs

-- The items of a comma-separated list, without space around them and without the empty ones.
abbrev pub items_of : Text → List Text
items_of raw = non_empty (map trim (split (λ c. nat_eq c b',') raw))

-- Two lists have the same members.
abbrev pub SameMembers : List Text → List Text → Type 0
SameMembers xs ys = (t : Text) → any (λ o. o == t) xs ≡ any (λ o. o == t) ys

module _ (parse_uri : Text → Option Uri) (parse_header : Text → Option Text) where
  -- The header value of an item that is an exact HTTPS origin: no wildcard, and a URI with the
  -- scheme `https`, an authority, the path `/` and no query.
  pub record IsExact (origin header : Text) : Type 0 where
    pub no_wildcard : origin ≢ codes "*"
    pub uri : Uri
    pub parsed : parse_uri origin ≡ some uri
    pub https : uri.scheme_str ≡ some (codes "https")
    pub authority : Text
    pub host : uri.authority ≡ some authority
    pub no_path : uri.path ≡ codes "/"
    pub no_query : uri.query ≡ none
    pub is : parse_header origin ≡ some header

  -- Every item is exact, and these are their header values in order.
  abbrev pub Headers : List Text → List Text → Type 0
  Headers [] headers = headers ≡ []
  Headers (item ∷ items) headers =
      (header : Text) × (rest : List Text) × (headers ≡ header ∷ rest)
      × IsExact item header
      × Headers items rest

  -- The origins of a list: every item of it is exact, and their header values are the members, each
  -- of them once; there is at least one.
  pub record AreOrigins (raw : Text) (origins : List Text) : Type 0 where
    pub headers : List Text
    pub exact : Headers (items_of raw) headers
    pub members : SameMembers origins headers
    pub filled : origins ≢ []
    pub distinct : Distinct origins

  exact_parts :
      (uri : Uri)
      → exact parse_uri parse_header uri ≡ true
      → (uri.scheme_str ≡ some (codes "https"))
        × ((authority : Text) × (uri.authority ≡ some authority))
        × (uri.path ≡ codes "/")
        × (uri.query ≡ none)
  exact_parts uri h = (
    ground (arith, scheme uri.scheme_str),
    elim (Option-cases uri.authority) [
      | inl missing ↦ absurd (ground (arith, missing, h))
      | inr found ↦ found
    ],
    ground (arith, text_eq_iff uri.path (codes "/")),
    ground arith,
  )
    where
      scheme :
          (o : Option Text) → is_https parse_uri parse_header o ≡ true → o ≡ some (codes "https")
      scheme none e = cc
      scheme (some x) e = ap some ((text_eq_iff x (codes "https")).0 e)

  pub origin_header-IsExact :
      (origin : Text) {header : Text}
      → origin_header parse_uri parse_header origin ≡ ok header
      → IsExact origin header
  origin_header-IsExact origin {header} h =
      let (plain, h1) = else-eq-ok (origin == codes "*") wildcard _ h in
      let (uri, parsed, h2) = and_then-eq-ok (ok_or unparsable (parse_uri origin)) _ h1 in
      let (strict, h3) =
        else-eq-ok (not (exact parse_uri parse_header uri)) not_exact
          (ok_or unparsable (parse_header origin)) h2 in
      let (https, (authority, host), no_path, no_query) =
        exact_parts uri (ground (arith, strict)) in
      record {
        no_wildcard = λ e. ground (arith, (text_eq_iff origin (codes "*")).1 e, plain);
        uri = uri;
        parsed = ok_or-eq-ok unparsable (parse_uri origin) parsed;
        https = https;
        authority = authority;
        host = host;
        no_path = no_path;
        no_query = no_query;
        is = ok_or-eq-ok unparsable (parse_header origin) h3;
      }
