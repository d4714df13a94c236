-- ===== src/Api/Router.antt =====
-- src/api/mod.rs: the state of the gateway, its routes, and the origins that browsers may call it
-- from. Which pattern a path matches is the router's, a parameter.
pub mod Layers
use akiro.Prelude.{
  ℕ, Bool, true, false, Option, none, some, List, [], ◌∷◌, if◌then◌else◌, ◌++◌, ◌&&◌, ◌||◌,
}
use akiro.Prelude.Text.{Text, codes, text_eq, trim}
use akiro.Languages.Language.{SupportedLanguage}
use akiro.Prelude.Pieces.{split}
use akiro.Api.Auth.{Headers, normalize_secret, auth_middleware, is_blank, and_then}
use akiro.Api.Handlers.{ApiState}

pub data Method : Type 0 where
  get post : Method

pub data Endpoint : Type 0 where
  submit submit_async get_result handle_websocket handle_result_ws health metrics : Endpoint

pub record Route : Type 0 where
  pub pattern : Text
  pub method : Method
  pub endpoint : Endpoint

abbrev pub route : Text → Method → Endpoint → Route
route pattern method endpoint = record { pattern = pattern; method = method; endpoint = endpoint }

unfoldable pub protected_routes : List Route
protected_routes =
    route (codes "/api/v1/submit") post submit
    ∷ route (codes "/api/v1/submit/async") post submit_async
    ∷ route (codes "/api/v1/result/:job_id") get get_result
    ∷ route (codes "/api/v1/ws/execute") get handle_websocket
    ∷ route (codes "/api/v1/ws/result/:job_id") get handle_result_ws
    ∷ []

unfoldable pub public_routes : List Route
public_routes = route (codes "/health") get health ∷ route (codes "/metrics") get metrics ∷ []

-- The gateway: `secret` and `redis_url` of the state, and what its handlers read.
pub record Router : Type 0 where
  pub secret : Option Text
  pub redis_url : Option Text
  pub state : ApiState

-- Whether the result bus is there: `spawns` says if it can be started on a URL.
abbrev pub has_result_bus : (Text → Bool) → Option Text → Bool
has_result_bus spawns none = false
has_result_bus spawns (some url) = spawns url

unfoldable pub create_router :
    (Text → Bool) → Option Text → Option Text → Option (List SupportedLanguage) → Router
create_router spawns secret redis_url enabled_languages = record {
  secret = normalize_secret secret;
  redis_url = redis_url;
  state = record {
    enabled_languages = enabled_languages;
    has_bus = has_result_bus spawns redis_url;
  };
}

pub record Request : Type 0 where
  pub path : Text
  pub method : Method
  pub headers : Headers

-- What a request comes to before its handler runs.
pub data Dispatch : Type 0 where
  handled : Endpoint → Dispatch
  unauthorized method_not_allowed not_found : Dispatch

abbrev pub same_method : Method → Method → Bool
same_method get get = true
same_method post post = true
same_method get post = false
same_method post get = false

abbrev pub serve : Route → Request → Dispatch
serve r request =
    if same_method r.method request.method then handled r.endpoint else method_not_allowed

abbrev pub serve_public : Option Route → Request → Dispatch
serve_public none request = not_found
serve_public (some r) request = serve r request

-- The layer stands before the routes of its router, and no others.
abbrev pub serve_protected : Bool → Option Route → Request → Dispatch → Dispatch
serve_protected admitted none request rest = rest
serve_protected admitted (some r) request rest = if admitted then serve r request else unauthorized

module _ (matches : Text → Text → Bool) where
  -- The route whose pattern the path matches.
  unfoldable pub find_route : List Route → Text → Option Route
  find_route [] path = none
  find_route (r ∷ rs) path = if matches r.pattern path then some r else find_route rs path

  unfoldable pub dispatch : (List ℕ → Option Text) → Router → Request → Dispatch
  unfolding find_route protected_routes public_routes auth_middleware
  dispatch to_str router request =
      serve_protected (auth_middleware to_str router.secret request.headers)
        (find_route protected_routes request.path) request
        (serve_public (find_route public_routes request.path) request)

pub data CorsLayer : Type 0 where
  permissive : CorsLayer
  -- The origins; the methods are GET and POST, and the headers are listed with it.
  restricted : List Text → CorsLayer

-- `filter_map` over the pieces; `parse` is that of a header's value.
unfoldable pub parse_origins : (Text → Option Text) → List Text → List Text
parse_origins parse [] = []
parse_origins parse (o ∷ os) =
    let rest = parse_origins parse os in
    elim (parse (trim o)) [ none ↦ rest | some origin ↦ origin ∷ rest ]

-- From `JUDGE_CORS_ALLOW_ORIGIN`.
unfoldable pub build_cors_layer : (Text → Option Text) → Option Text → CorsLayer
unfolding parse_origins
build_cors_layer parse none = permissive
build_cors_layer parse (some v) =
    if text_eq (trim v) (codes "*")
    then permissive
    else if is_blank v
    then permissive
    else restricted (parse_origins parse (split b',' v))
