-- ===== src/Api/Routes.antt =====
-- src/api.rs: the routes and the CORS layer that `router` puts together.
use hhm_api_server_rs.Common.{Text, codes, Option, List, [], ◌∷◌}
use hhm_api_server_rs.Common.Result.{Result, ok, and_then}
use hhm_api_server_rs.Api.Cors.{Uri, CorsError, cors_origins}
use hhm_api_server_rs.Api.State.{AppState}

pub data Method : Type 0 where
  get post : Method

-- The handler of a route, by its name.
pub data Endpoint : Type 0 where
  health readiness create_pre_interest create_upload_intent complete_upload : Endpoint
  create_application create_referral : Endpoint

pub record Route : Type 0 where
  pub path : Text
  pub method : Method
  pub endpoint : Endpoint

-- A `CorsLayer`.
pub record CorsLayer : Type 0 where
  pub allow_origin : List Text
  pub allow_methods : List Method
  pub allow_headers : List Text

pub record Router : Type 0 where
  pub routes : List Route
  pub layer : CorsLayer
  pub state : AppState

abbrev pub api_routes : List Route
api_routes =
    record { path = codes "/healthz"; method = get; endpoint = health }
    ∷ record { path = codes "/readyz"; method = get; endpoint = readiness }
    ∷ record { path = codes "/v1/pre-interests"; method = post; endpoint = create_pre_interest }
    ∷ record { path = codes "/v1/intake/uploads"; method = post; endpoint = create_upload_intent }
    ∷ record {
      path = codes "/v1/intake/uploads/{upload_id}/complete";
      method = post;
      endpoint = complete_upload;
    }
    ∷ record { path = codes "/v1/applications"; method = post; endpoint = create_application }
    ∷ record { path = codes "/v1/referrals"; method = post; endpoint = create_referral }
    ∷ []

module _ (parse_uri : Text → Option Uri) (parse_header : Text → Option Text) where
  unfoldable pub cors_layer : Text → Result CorsError CorsLayer
  cors_layer raw = and_then (cors_origins parse_uri parse_header raw) λ origins. ok (record {
    allow_origin = origins;
    allow_methods = get ∷ post ∷ [];
    allow_headers = codes "content-type" ∷ codes "authorization" ∷ codes "idempotency-key" ∷ [];
  })

  unfoldable pub router : AppState → Text → Result CorsError Router
  unfolding cors_layer
  router state raw =
      and_then (cors_layer raw)
        λ layer. ok (record { routes = api_routes; layer = layer; state = state })
