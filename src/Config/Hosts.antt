-- ===== src/Config/Hosts.antt =====
-- src/config.rs: the URLs that a configuration may hold.
use hhm_api_server_rs.Common.{
  is_some, ◌≡◌, refl, inl, inr, true, not, ◌&&◌, ◌||◌, Option, none, some, List, [], ◌∷◌, ◌++◌,
  Text, Text-Eq, text_eq_iff, codes, split, eq_ignore_ascii_case, nat_eq, ◌==◌, &&-eq-true,
  ||-eq-true,
}
use hhm_api_server_rs.Http.{Url}
use hhm_api_server_rs.Config.{is_https_url, in_cluster, host_or_empty, is_local, is_auth_url}

-- Labels that end in `svc`, or in `svc.cluster.local`, in any case.
pub data IsInCluster : List Text → Type 0 where
  service :
      (before : List Text) (s : Text)
      → eq_ignore_ascii_case s (codes "svc") ≡ true
      → IsInCluster (before ++ s ∷ [])
  qualified :
      (before : List Text) (s c l : Text)
      → eq_ignore_ascii_case s (codes "svc") ≡ true
      → eq_ignore_ascii_case c (codes "cluster") ≡ true
      → eq_ignore_ascii_case l (codes "local") ≡ true
      → IsInCluster (before ++ s ∷ c ∷ l ∷ [])

below : (label : Text) {labels : List Text} → IsInCluster labels → IsInCluster (label ∷ labels)
below label (service before s h) = service (label ∷ before) s h
below label (qualified before s c l h1 h2 h3) = qualified (label ∷ before) s c l h1 h2 h3

in_cluster-IsInCluster : (labels : List Text) → in_cluster labels ≡ true → IsInCluster labels
unfolding in_cluster
in_cluster-IsInCluster [] h = cc
in_cluster-IsInCluster (a ∷ []) h = service [] a h
in_cluster-IsInCluster (a ∷ b ∷ []) h = service (a ∷ []) b h
in_cluster-IsInCluster (a ∷ b ∷ c ∷ []) h =
    elim (||-eq-true (eq_ignore_ascii_case c (codes "svc")) _ h) [
      | inl last ↦ service (a ∷ b ∷ []) c last
      | inr long ↦
          let (firsts, third) =
            &&-eq-true
              (eq_ignore_ascii_case a (codes "svc") && eq_ignore_ascii_case b (codes "cluster"))
              (eq_ignore_ascii_case c (codes "local")) long in
          let (first, second) =
            &&-eq-true (eq_ignore_ascii_case a (codes "svc"))
              (eq_ignore_ascii_case b (codes "cluster")) firsts in
          qualified [] a b c first second third
    ]
in_cluster-IsInCluster (a ∷ b ∷ c ∷ d ∷ labels) h =
    below a (in_cluster-IsInCluster (b ∷ c ∷ d ∷ labels) h)

-- The hosts for which the adapter may speak plain HTTP.
pub data IsLocal : Text → Type 0 where
  localhost : IsLocal (codes "localhost")
  loopback : IsLocal (codes "127.0.0.1")
  cluster : (host : Text) → IsInCluster (split (λ c. nat_eq c b'.') host) → IsLocal host

is_local-IsLocal : (host : Text) → is_local host ≡ true → IsLocal host
unfolding is_local
is_local-IsLocal host h =
    let here = host == codes "localhost" in
    let loop = host == codes "127.0.0.1" in
    let inside = in_cluster (split (λ c. nat_eq c b'.') host) in
    elim (||-eq-true (here || loop) inside h) [
      | inl machine ↦ elim (||-eq-true here loop machine) [
        | inl found ↦ rw ((text_eq_iff host (codes "localhost")).0 found) localhost
        | inr found ↦ rw ((text_eq_iff host (codes "127.0.0.1")).0 found) loopback
      ]
      | inr near ↦ cluster host (in_cluster-IsInCluster (split (λ c. nat_eq c b'.') host) near)
    ]

-- A URL whose requests do not leave TLS, or do not leave the machine or the cluster.
pub data IsProtected (url : Url) : Type 0 where
  https : url.scheme ≡ codes "https" → IsProtected url
  local :
      {host : Text}
      → url.host_str ≡ some host
      → url.scheme ≡ codes "http"
      → IsLocal host
      → IsProtected url

has_some : {A : Type 0} (o : Option A) → is_some o ≡ true → (a : A) × (o ≡ some a)
has_some none h = cc
has_some (some a) h = (a, refl)

has_none : {A : Type 0} (o : Option A) → not (is_some o) ≡ true → o ≡ none
has_none none h = refl
has_none (some a) h = cc

pub is_auth_url-IsProtected :
    (url : Url)
    → is_auth_url url ≡ true
    → IsProtected url × (url.query ≡ none) × ((host : Text) × (url.host_str ≡ some host))
unfolding is_auth_url
is_auth_url-IsProtected url h =
    let near_http = url.scheme == codes "http" && is_local (host_or_empty url.host_str) in
    let schemes = url.scheme == codes "https" || near_http in
    let (both, right) = &&-eq-true (is_some url.host_str && not (is_some url.query)) schemes h in
    let (named, plain) = &&-eq-true (is_some url.host_str) (not (is_some url.query)) both in
    let (host, found) = has_some url.host_str named in
    (
      elim (||-eq-true (url.scheme == codes "https") near_http right) [
        | inl secure ↦ https ((text_eq_iff url.scheme (codes "https")).0 secure)
        | inr inside ↦
            let (clear, near) =
              &&-eq-true (url.scheme == codes "http") (is_local (host_or_empty url.host_str))
                inside in
            local found ((text_eq_iff url.scheme (codes "http")).0 clear)
              (is_local-IsLocal host (rw found at near))
      ],
      has_none url.query plain,
      (host, found),
    )

-- The parts of a URL that the service may use as the base of the project.
pub is_https_url_parts :
    (url : Url)
    → is_https_url url ≡ true
    → (url.scheme ≡ codes "https")
      × (url.query ≡ none)
      × ((host : Text) × (url.host_str ≡ some host))
is_https_url_parts url h =
    let (both, plain) =
      &&-eq-true (url.scheme == codes "https" && is_some url.host_str) (not (is_some url.query))
        h in
    let (secure, named) = &&-eq-true (url.scheme == codes "https") (is_some url.host_str) both in
    (
      (text_eq_iff url.scheme (codes "https")).0 secure,
      has_none url.query plain,
      has_some url.host_str named,
    )
