-- ===== src/Auth/Laws.antt =====
-- src/auth.rs: what the adapter lets through.
use hhm_api_server_rs.Common.{
  ℕ, ◌+◌, ◌≤◌, ◌≡◌, refl, sym, ap, ◌∙◌, true, Option, none, some, List, [], ◌∷◌, ◌++◌, map, Text,
  Option-Eq, Text-Eq, codes, length, length-append, append_assoc, append_nil, joined, ◌↔◌, any,
  split_ascii_whitespace, arith, ◌==◌, option_eq_iff,
}
use hhm_api_server_rs.Common.Result.{ok}
use hhm_api_server_rs.Http.{Introspection}
use hhm_api_server_rs.Auth.{
  max_response_bytes, has_scope, authorize_introspection, bounded_response,
}

-- A body that was returned is all its chunks in their order, none of which failed, and it is not
-- longer than the limit if what was read before is not.
pub bounded_response-eq-ok :
    (body : List ℕ) (chunks : List (Option (List ℕ))) {whole : List ℕ}
    → length body ≤ max_response_bytes
    → bounded_response body chunks ≡ ok whole
    → (read : List (List ℕ)) × (chunks ≡ map some read)
      × (whole ≡ body ++ joined read)
      × (length whole ≤ max_response_bytes)
unfolding bounded_response
bounded_response-eq-ok body [] {whole} short h =
    let is : body ≡ whole = ground (arith, h) in
    ([], refl, sym is ∙ sym (append_nil body), rw (← is) short)
bounded_response-eq-ok body (none ∷ chunks) short h = ground arith
bounded_response-eq-ok body (some chunk ∷ chunks) {whole} short h =
    let fits : length body + length chunk ≤ max_response_bytes = ground (arith, h) in
    let rest : bounded_response (body ++ chunk) chunks ≡ ok whole = ground (arith, h) in
    let (read, all_read, is, limit) =
      bounded_response-eq-ok (body ++ chunk) chunks (rw (length-append body chunk) fits) rest in
    (
      chunk ∷ read,
      ap (λ (l : List (Option (List ℕ))). some chunk ∷ l) all_read,
      is ∙ append_assoc body chunk (joined read),
      limit,
    )

-- An introspection is authorised exactly where the token is active, its audience is the one asked
-- for, and one of its scopes is `hhm:intake:write`.
pub authorize_introspection_iff :
    (i : Introspection) (audience : Text)
    → (authorize_introspection i audience ≡ ok tt) ↔ (
        (i.active ≡ true)
        × (i.aud ≡ some audience)
        × ((scope : Text) × (i.scope ≡ some scope)
            × (any (λ c. c == codes "hhm:intake:write") (split_ascii_whitespace scope) ≡ true)))
unfolding authorize_introspection has_scope
authorize_introspection_iff i audience =
    ground (arith, option_eq_iff i.aud (some audience), i.scope)
