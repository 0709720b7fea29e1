-- ===== src/Api/Cors/Laws.antt =====
-- src/api.rs: which origins `cors_layer` lets through.
use hhm_api_server_rs.Common.{
  ◌≡◌, ◌≢◌, refl, sym, ◌∙◌, Bool, inl, inr, true, false, ◌||◌, Option, List, [], ◌∷◌, ◌++◌, Text,
  Text-Eq, arith, any, text_eq_iff, ◌==◌, Bool-cases,
}
use hhm_api_server_rs.Common.Result.{Result, ok, err, panic, and_then-eq-ok}
use hhm_api_server_rs.Api.Cors.{
  Uri, CorsError, no_origin, origin_header, push_new, collect_origins, cors_origins,
}
use hhm_api_server_rs.Api.Cors.Exact.{
  Distinct, items_of, IsExact, Headers, AreOrigins, origin_header-IsExact,
}

module _ (parse_uri : Text → Option Uri) (parse_header : Text → Option Text) where
  any-end :
      (x header : Text) (xs : List Text)
      → any (λ o. o == x) (xs ++ header ∷ []) ≡ (any (λ o. o == x) xs || header == x)
  any-end x header [] = ground arith
  any-end x header (y ∷ ys) = ground (arith, any-end x header ys)

  push-Distinct :
      (xs : List Text) (header : Text)
      → any (λ o. o == header) xs ≡ false
      → Distinct xs
      → Distinct (xs ++ header ∷ [])
  push-Distinct [] header h d = (refl, tt)
  push-Distinct (x ∷ xs) header h (fresh, d) = (
    any-end x header xs ∙ ground (arith, fresh, h, text_eq_iff x header, text_eq_iff header x),
    push-Distinct xs header (ground (arith, h)) d,
  )

  push_new-Distinct :
      (xs : List Text) (header : Text)
      → Distinct xs
      → Distinct (push_new parse_uri parse_header xs header)
  push_new-Distinct xs header d = elim (Bool-cases (any (λ o. o == header) xs)) [
    | inl there ↦ rw there d
    | inr fresh ↦ rw fresh (push-Distinct xs header fresh d)
  ]

  -- Whether it was new or not, the header is now a member.
  push_new-members :
      (xs : List Text) (header t : Text)
      → any (λ o. o == t) (push_new parse_uri parse_header xs header)
        ≡ (any (λ o. o == t) xs || header == t)
  push_new-members xs header t = elim (Bool-cases (any (λ o. o == header) xs)) [
    | inr fresh ↦ rw fresh (any-end t header xs)
    | inl there ↦ rw there (elim (Bool-cases (header == t)) [
      | inl one ↦ ground (arith, one, rw ((text_eq_iff header t).0 one) at there)
      | inr other ↦ ground (arith, other)
    ])
  ]

  -- What the loop gives for the items to come after the origins found so far.
  pub record Collected (found items out : List Text) : Type 0 where
    pub headers : List Text
    pub exact : Headers parse_uri parse_header items headers
    pub members :
        (t : Text) → any (λ o. o == t) out ≡ (any (λ o. o == t) found || any (λ o. o == t) headers)
    pub distinct : Distinct out

  collect-step :
      (xs : List Text) (item : Text) (r : Result CorsError Text) (items : List Text)
      {out : List Text}
      → ((header : Text) → r ≡ ok header → IsExact parse_uri parse_header item header)
      → ((header : Text)
          → Distinct (push_new parse_uri parse_header xs header)
          → collect_origins parse_uri parse_header (push_new parse_uri parse_header xs header) items
            ≡ ok out
          → Collected (push_new parse_uri parse_header xs header) items out)
      → Distinct xs
      → (elim r [
        | ok header ↦
            collect_origins parse_uri parse_header (push_new parse_uri parse_header xs header) items
        | err e ↦ err e
        | Result.panic ↦ Result.panic
      ])
        ≡ ok out
      → Collected xs (item ∷ items) out
  collect-step xs item (ok header) items {out} good rest d h =
      let later = rest header (push_new-Distinct xs header d) h in
      record {
        headers = header ∷ later.headers;
        exact = (header, later.headers, refl, good header refl, later.exact);
        members = λ t.
            later.members t
            ∙ (rw (push_new-members xs header t)
                (or_assoc (any (λ o. o == t) xs) (header == t) (any (λ o. o == t) later.headers)));
        distinct = later.distinct;
      }
    where
      or_assoc : (a b c : Bool) → ((a || b) || c) ≡ (a || (b || c))
      or_assoc true b c = refl
      or_assoc false b c = refl
  collect-step xs item (err e) items good rest d h = cc
  collect-step xs item panic items good rest d h = cc

  collect-Collected :
      (xs items : List Text) {out : List Text}
      → Distinct xs
      → collect_origins parse_uri parse_header xs items ≡ ok out
      → Collected xs items out
  unfolding collect_origins
  collect-Collected xs [] {out} d h =
      let same : xs ≡ out = ground (arith, h) in
      rw (← same) (record {
        headers = [];
        exact = refl;
        members = λ t. or_false (any (λ o. o == t) xs);
        distinct = d;
      })
    where
      or_false : (a : Bool) → a ≡ (a || false)
      or_false true = refl
      or_false false = refl
  collect-Collected xs (item ∷ items) d h =
      collect-step xs item (origin_header parse_uri parse_header item) items
        (λ header e. origin_header-IsExact parse_uri parse_header item e)
        (λ header d' rest.
          collect-Collected (push_new parse_uri parse_header xs header) items d' rest)
        d h

  some_origin :
      (origins : List Text) {out : List Text}
      → (elim origins [ [] ↦ err no_origin | x ∷ xs ↦ ok (x ∷ xs) ]) ≡ ok out
      → (out ≡ origins) × (out ≢ [])
  some_origin [] h = cc
  some_origin (x ∷ xs) {out} h =
      let same : x ∷ xs ≡ out = ground (arith, h) in
      let filled : x ∷ xs ≢ [] = λ e. cc in (sym same, rw (← same) filled)

  -- The origins that are allowed for a list: every item of it is an exact HTTPS origin, with the
  -- scheme `https`, an authority, the path `/`, no query and no wildcard; their header values are
  -- allowed, each once, and nothing else; and there is at least one.
  pub cors_origins-AreOrigins :
      (raw : Text) {out : List Text}
      → cors_origins parse_uri parse_header raw ≡ ok out
      → AreOrigins parse_uri parse_header raw out
  unfolding cors_origins
  cors_origins-AreOrigins raw h =
      let (origins, collected, h1) =
        and_then-eq-ok (collect_origins parse_uri parse_header [] (items_of raw))
          (λ (origins : List Text). elim origins [ [] ↦ err no_origin | x ∷ xs ↦ ok (x ∷ xs) ]) h in
      let found = collect-Collected [] (items_of raw) tt collected in
      let (same, filled) = some_origin origins h1 in
      record {
        headers = found.headers;
        exact = found.exact;
        members = rw same found.members;
        filled = filled;
        distinct = rw same found.distinct;
      }
