-- ===== src/Api/Request/Laws.antt =====
-- src/api.rs: the digest of a request and the context that it makes.
use hhm_api_server_rs.Common.{
  is_some, ℕ, ◌≡◌, ◌⊎◌, inl, inr, not, refl, ap, Bool, true, false, ◌||◌, Option, none, some, List,
  [], ◌∷◌, ◌++◌, String, Text, Text-Eq, String-Eq, arith, bytes, codes, len, length, all, All,
  to_ascii_lowercase, text_eq_iff, ◌==◌, within, if◌then◌else◌, Bool-cases,
}
use hhm_api_server_rs.Common.Result.{ok, err, and_then-eq-ok, ok_or, else-eq-ok, map_err}
use hhm_api_server_rs.Hex.{lower_hex}
use hhm_api_server_rs.Hex.Laws.{IsByte, lower_hex-valid_digest}
use hhm_api_server_rs.Http.{HeaderMap, Outside}
use hhm_api_server_rs.External.{is_site}
use hhm_api_server_rs.Persistence.Context.{
  Uuid, VerifiedSubject, is_key_byte, valid_digest, valid_host, new_context,
}
use hhm_api_server_rs.Persistence.Context.Laws.{new_context-accepts}
use hhm_api_server_rs.Api.Failure.{invalid_request, from_data}
use hhm_api_server_rs.Api.Request.{
  object, Json, remove, as_object, visible_text, canonical_digest_without_turnstile,
  idempotency_key, source_host, context_for, submission_context,
}

-- What the code relies on of SHA-256: its digest is 32 bytes.
pub record IsSha256 (sha256 : List ℕ → List ℕ) : Type 0 where
  pub sized : (xs : List ℕ) → length (sha256 xs) ≡ 32
  pub made_of_bytes : (xs : List ℕ) → All IsByte (sha256 xs)

remove-append :
    (key : String) (xs ys : List (String × Text))
    → remove key (xs ++ ys) ≡ remove key xs ++ remove key ys
remove-append key [] ys = refl
remove-append key ((k, v) ∷ xs) ys = elim (Bool-cases (k == key)) [
  | inl hit ↦ rw hit (remove-append key xs ys)
  | inr miss ↦ rw miss (ap (λ (l : List (String × Text)). (k, v) ∷ l) (remove-append key xs ys))
]

site_name :
    (host : Text)
    → is_site host ≡ true
    → (host ≡ codes "hhaus.org")
      ⊎ ((host ≡ codes "www.hhaus.org")
          ⊎ ((host ≡ codes "user.hhaus.org") ⊎ (host ≡ codes "medellin.hhaus.org")))
site_name host h = elim (Bool-cases (host == codes "hhaus.org")) [
  | inl a ↦ inl ((text_eq_iff host (codes "hhaus.org")).0 a)
  | inr a ↦ inr (elim (Bool-cases (host == codes "www.hhaus.org")) [
    | inl b ↦ inl ((text_eq_iff host (codes "www.hhaus.org")).0 b)
    | inr b ↦ inr (elim (Bool-cases (host == codes "user.hhaus.org")) [
      | inl c ↦ inl ((text_eq_iff host (codes "user.hhaus.org")).0 c)
      | inr c ↦ inr ((text_eq_iff host (codes "medellin.hhaus.org")).0 (rw (a, b, c) at h))
    ])
  ])
]

-- The names of the sites are in lower case and are hosts of a context.
site-valid :
    (host : Text)
    → is_site host ≡ true
    → (to_ascii_lowercase host ≡ host) × (valid_host (to_ascii_lowercase host) ≡ true)
site-valid host h = elim (site_name host h) [
  | inl e ↦ rw e (refl, refl)
  | inr (inl e) ↦ rw e (refl, refl)
  | inr (inr (inl e)) ↦ rw e (refl, refl)
  | inr (inr (inr e)) ↦ rw e (refl, refl)
]

flipped : (b : Bool) → not b ≡ false → b ≡ true
flipped b h = ground (arith, h)

-- Both constructors of a context are `new_context`.
context_for-new_context :
    (fresh : Uuid) (subject : Option VerifiedSubject) (key digest host : Text)
    → context_for fresh subject key digest host
      ≡ map_err from_data (new_context fresh subject key digest host)
context_for-new_context fresh none key digest host = refl
context_for-new_context fresh (some s) key digest host = refl

module _ (outside : Outside) {I : Type 0} (json : Json I) where
  -- Two bodies that are the same but for the Turnstile token have the same digest.
  pub canonical_digest-turnstile :
      (a b : I) (before after : List (String × Text)) (s t : Text)
      → json.to_value a ≡ some (object (before ++ ("turnstileToken", s) ∷ after))
      → json.to_value b ≡ some (object (before ++ ("turnstileToken", t) ∷ after))
      → canonical_digest_without_turnstile outside json a
        ≡ canonical_digest_without_turnstile outside json b
  unfolding canonical_digest_without_turnstile
  canonical_digest-turnstile a b before after s t first second = rw (
    first,
    second,
    remove-append "turnstileToken" before (("turnstileToken", s) ∷ after),
    remove-append "turnstileToken" before (("turnstileToken", t) ∷ after),
  )

  digest-valid :
      IsSha256 outside.sha256
      → (input : I) {digest : Text}
      → canonical_digest_without_turnstile outside json input ≡ ok digest
      → valid_digest digest ≡ true
  unfolding canonical_digest_without_turnstile
  digest-valid hash input {digest} h =
      let (value, _, h1) = and_then-eq-ok (ok_or invalid_request (json.to_value input)) _ h in
      let (members, _, h2) = and_then-eq-ok (ok_or invalid_request (as_object value)) _ h1 in
      let (encoded, _, h3) =
        and_then-eq-ok
          (ok_or invalid_request (json.value_to_vec (object (remove "turnstileToken" members))))
          (λ bytes. ok (lower_hex (outside.sha256 bytes))) h2 in
      let is : lower_hex (outside.sha256 encoded) ≡ digest = ground (arith, h3) in
      rw (← is) (
        lower_hex-valid_digest (outside.sha256 encoded) (hash.made_of_bytes encoded)
          (hash.sized encoded))

  key-sized :
      (headers : HeaderMap) {key : Text}
      → idempotency_key headers ≡ ok key
      → within 16 128 (len key) ≡ true
  unfolding idempotency_key
  key-sized headers {key} h =
      let (value, _, h1) = and_then-eq-ok (visible_text headers.idempotency_key) _ h in
      ground (arith, h1)

  host-site :
      (headers : HeaderMap) {host : Text}
      → source_host outside headers ≡ ok host
      → is_site host ≡ true
  unfolding source_host
  host-site headers {host} h =
      let (origin, _, h1) = and_then-eq-ok (visible_text headers.origin) _ h in
      let (url, _, h2) = and_then-eq-ok (ok_or invalid_request (outside.parse_url origin)) _ h1 in
      let strange =
        not (url.scheme == codes "https")
        || not (url.path == codes "/")
        || is_some url.query
        || is_some url.fragment in
      let (_, h3) = else-eq-ok strange invalid_request _ h2 in
      let (found, _, h4) =
        and_then-eq-ok (ok_or invalid_request url.host_str)
          (λ host. if not (is_site host) then err invalid_request else ok host) h3 in
      let (site, last) = else-eq-ok (not (is_site found)) invalid_request (ok found) h4 in
      let same : found ≡ host = ground (arith, last) in rw (← same) (flipped (is_site found) site)

  -- A public request whose key is made of key bytes, from a page of the sites, always gets its
  -- context: the digest of a body is one that a context accepts.
  pub submission_context-accepts :
      IsSha256 outside.sha256
      → (fresh : Uuid) (subject : Option VerifiedSubject) (headers : HeaderMap) (input : I)
        {key digest host : Text}
      → idempotency_key headers ≡ ok key
      → all is_key_byte (bytes key) ≡ true
      → source_host outside headers ≡ ok host
      → canonical_digest_without_turnstile outside json input ≡ ok digest
      → submission_context outside fresh subject headers digest
        ≡ ok (record {
          canonical_id = fresh;
          subject = subject;
          idempotency_key = key;
          payload_sha256 = digest;
          source_host = host;
        })
  unfolding submission_context
  submission_context-accepts hash fresh subject headers input {key} {digest} {host} k b o d =
      let (lower, site) = site-valid host (host-site headers o) in
      let sized = key-sized headers k in
      let new =
        new_context-accepts fresh subject key digest host (rw (sized, b))
          (digest-valid hash input d) site in
      rw (k, o, context_for-new_context fresh subject key digest host, new, lower)
