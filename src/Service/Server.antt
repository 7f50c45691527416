-- ===== src/Service/Server.antt =====
-- `SetupRouter` of service/router.go: the routes of the server, and the middlewares on the way to
-- the handlers. Which route a request fits is a matter of github.com/gorilla/mux; the middlewares
-- of a router run in the order of their `Use` calls, those of the outer router first.
pub mod Proxied
pub mod Responded
use rond.Prelude.{
  ℕ, String, Bool, List, [], ◌∷◌, ◌++◌, map, Option, none, some, Result, ok, ◌>>=◌, if◌then◌else◌,
}
use rond.Prelude.Map.{lookup}
use rond.Http.Header.{Header}
use rond.Http.Request.{Request}
use rond.Http.Writer.{Writer}
use rond.Utils.{Lo}
use rond.Config.{EnvironmentVariables, get_additional_headers_to_proxy}
use rond.Openapi.{OpenApiSpec}
use rond.Openapi.FindPermission.{Bunrouter}
use rond.Openapi.Routes.{prepare_oas_router}
use rond.Helpers.{add_headers_to_proxy}
use rond.Metrics.{Collector, setup_metrics, must_register}
use rond.Mongo.{MongoClient}
use rond.Core.Context.{
  Context, PartialResultsEvaluators, OpaModuleConfig, CurrentRoute, with_environment, with_metrics,
  with_mongo_client,
}
use rond.Core.Evaluators.{Opa}
use rond.Core.Input.{Codec}
use rond.Core.Transport.{RoundTripper}
use rond.Core.Middleware.{Passage, next, answered, opa_middleware}
use rond.Service.Status.{status_routes}
use rond.Service.Standalone.Requests.{StandaloneRequest, Services, Served}
use rond.Service.Standalone.{revoke_handler}
use rond.Service.Standalone.Grant.{grant_handler}
use rond.Service.Handler.{Outcome, responded, rbac_handler, always_proxy_handler}
use rond.Service.Router.{
  Handler, rbac, always_proxy, Route, Paths, metrics_route_path, routes_to_not_proxy, setup_routes,
}

pub data Endpoint : Type 0 where
  status metrics revoke grant : Endpoint

-- A route of the outer router: a path with its methods, if given, or all the routes of the router
-- of the evaluated requests.
pub data Entry : Type 0 where
  endpoint : String → Option String → Endpoint → Entry
  eval_router : List Route → Entry

-- `StatusRoutes`
abbrev pub status_entries : List Entry
status_entries = map (λ path. endpoint path none status) status_routes

-- The bodies that the documentation of the API names.
pub data BodyType : Type 0 where
  revoke_request revoke_response grant_request grant_response request_error : BodyType

-- The body of a request, and those of the responses by their status.
pub record Definitions : Type 0 where
  pub request_body : BodyType
  pub responses : List (ℕ × BodyType)

abbrev pub revoke_definitions : Definitions
revoke_definitions = record {
  request_body = revoke_request;
  responses = (200, revoke_response) ∷ (500, request_error) ∷ (400, request_error) ∷ [];
}

abbrev pub grant_definitions : Definitions
grant_definitions = record {
  request_body = grant_request;
  responses = (200, grant_response) ∷ (500, request_error) ∷ (400, request_error) ∷ [];
}

-- The router of gswagger, which can refuse its options, a route and its documents.
pub record Swagger : Type 0 where
  pub new_router : String → Result (Unit {0})
  pub add_route : String → String → Definitions → Result (Unit {0})
  pub generate_and_expose_openapi : Result (Unit {0})

-- The routes that only the standalone mode has, with their documentation.
abbrev pub standalone_routes : List (String × Endpoint × Definitions)
standalone_routes =
    ("/revoke/bindings/resource/{resourceType}", revoke, revoke_definitions)
    ∷ ("/grant/bindings/resource/{resourceType}", grant, grant_definitions)
    ∷ ("/revoke/bindings", revoke, revoke_definitions)
    ∷ ("/grant/bindings", grant, grant_definitions)
    ∷ []

module _ (swagger : Swagger) (env : EnvironmentVariables) where
  unfoldable pub add_standalone_routes :
      List (String × Endpoint × Definitions) → Result (List Entry)
  add_standalone_routes [] = ok []
  add_standalone_routes ((path, e, definitions) ∷ routes) =
      swagger.add_route "POST" path definitions >>= λ _.
      add_standalone_routes routes >>= λ entries. ok (endpoint path (some "POST") e ∷ entries)

  unfoldable pub setup_standalone : Result (List Entry)
  setup_standalone =
      if env.standalone
      then (swagger.new_router env.service_version >>= λ _.
          add_standalone_routes standalone_routes >>= λ entries.
          swagger.generate_and_expose_openapi >>= λ _. ok entries)
      else ok []

  -- `MetricsRoute`, and the collectors behind it, if the metrics are exposed.
  unfoldable pub metrics_entries : List Entry
  metrics_entries = if env.expose_metrics then endpoint metrics_route_path none metrics ∷ [] else []

  unfoldable pub collectors : List Collector
  collectors = if env.expose_metrics then must_register (setup_metrics "rond") else []

  -- `SetupRouter`; the evaluated routes are those of a router that stands before the others.
  -- `OPAMiddleware` prepares the router of the specification when it is made.
  unfoldable pub setup_router : Bunrouter → Lo → Paths → OpenApiSpec → Result (List Entry)
  setup_router router lo paths oas = setup_standalone >>= λ entries.
      router.handle_all (prepare_oas_router oas) >>= λ _.
      ok
        (status_entries ++ metrics_entries ++ eval_router (setup_routes lo paths oas env) ∷ entries)

-- What the handlers of the standalone mode are given.
unfoldable pub standalone_request : EnvironmentVariables → Request → String → StandaloneRequest
standalone_request env req body = record {
  env = some env;
  proxied = add_headers_to_proxy (get_additional_headers_to_proxy env) req.header;
  resource_type = elim (lookup "resourceType" req.path_params) [ none ↦ "" | some value ↦ value ];
  body = body;
}

-- A request of the standalone mode's own routes, with the text of its body.
unfoldable pub serve_revoke :
    {W : Type 0} → Services W → EnvironmentVariables → Writer → Request → String → Served W
serve_revoke d env w req body = revoke_handler d (standalone_request env req body) w

unfoldable pub serve_grant :
    {W : Type 0} → Services W → EnvironmentVariables → Writer → Request → String → Served W
serve_grant d env w req body = grant_handler d (standalone_request env req body) w

module _ {V P : Type 0} (opa : Opa V P) (codec : Codec) (lo : Lo) (default_transport : RoundTripper)
    (router : Bunrouter) (config : OpaModuleConfig) (spec : OpenApiSpec)
    (env : EnvironmentVariables) (evaluators : PartialResultsEvaluators P)
    (client : Option MongoClient) where
  abbrev pub handle : Handler → Context P → Writer → Request → Result (Outcome P)
  handle rbac = rbac_handler opa codec lo default_transport
  handle always_proxy = always_proxy_handler opa codec lo default_transport

  -- The client is put into the context behind the middleware of the policies.
  unfoldable pub with_client : Context P → Context P
  with_client ctx = elim client [ none ↦ ctx | some c ↦ with_mongo_client ctx c ]

  abbrev pub after_opa : Handler → Writer → Request → Passage P → Result (Outcome P)
  after_opa handler w req (answered w₁) = ok (responded w₁)
  after_opa handler w req (next ctx) = handle handler (with_client ctx) w req

  -- A request on one of the evaluated routes, from its first middleware to the outcome.
  unfoldable pub serve_evaluated :
      Handler → CurrentRoute → Context P → Writer → Request → Result (Outcome P)
  serve_evaluated handler route ctx w req =
      opa_middleware lo router codec.marshal config spec env evaluators (routes_to_not_proxy lo)
        route (with_environment (with_metrics ctx (setup_metrics "rond")) env) w req
      >>= after_opa handler w req
