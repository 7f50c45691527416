-- ===== src/Core/Context.antt =====
-- The values that middlewares put into a request's context, and their getters, in
-- core/opaevaluator.go, openapi/openapi_utils.go, openapi/routerinfo_middleware.go,
-- internal/config/env.go, internal/metrics/routes.go and internal/mongoclient/mongoclient.go. `none` is a missing value.
use rond.Prelude.{String, Option, none, some, Result, ok, err, error_text, ◌≡◌}
use rond.Prelude.Map.{Map}
use rond.Http.Request.{Request}
use rond.Utils.{sanitize_string}
use rond.Config.{EnvironmentVariables}
use rond.Metrics.{Metrics}
use rond.Openapi.{RondConfig}
use rond.Mongo.{MongoClient, MongoValue, mongo_client}

pub record OpaModuleConfig : Type 0 where
  pub name : String
  pub content : String

pub record RouterInfo : Type 0 where
  pub matched_path : String
  pub requested_path : String
  pub method : String

-- `P` is rego.PartialResult, the state of a prepared policy.
abbrev pub PartialResultsEvaluators : Type 0 → Type 0
PartialResultsEvaluators P = Map P

pub record Context (P : Type 0) : Type 0 where
  pub env : Option EnvironmentVariables
  pub metrics : Option Metrics
  pub mongo : MongoValue
  pub permission : Option RondConfig
  pub evaluators : Option (PartialResultsEvaluators P)
  pub opa_module : Option OpaModuleConfig
  pub router_info : Option RouterInfo

-- The text of the error if the context has no value.
abbrev pub required {ℓ} : {A : Type ℓ} → String → Option A → Result A
required text none = err (error_text text)
required text (some a) = ok a

-- What gorilla/mux says of the current route: there may be none, and its template may be an error.
abbrev pub CurrentRoute : Type 0
CurrentRoute = Option (Result String)

unfoldable pub get_path_template_or_default_to_empty_string : CurrentRoute → String
get_path_template_or_default_to_empty_string none = ""
get_path_template_or_default_to_empty_string (some (ok path_template)) = path_template
get_path_template_or_default_to_empty_string (some (err e)) = ""
get_path_template_or_default_to_empty_string (some Result.panic) = ""

module _ {P : Type 0} where
  unfoldable pub with_partial_results_evaluators :
      Context P → PartialResultsEvaluators P → Context P
  with_partial_results_evaluators ctx evaluators = record ctx { evaluators = some evaluators }

  unfoldable pub with_opa_module_config : Context P → OpaModuleConfig → Context P
  with_opa_module_config ctx config = record ctx { opa_module = some config }

  unfoldable pub with_x_permission : Context P → RondConfig → Context P
  with_x_permission ctx permission = record ctx { permission = some permission }

  unfoldable pub with_router_info : CurrentRoute → Context P → Request → Context P
  with_router_info route ctx req = record ctx {
    router_info = some (record {
      matched_path = sanitize_string (get_path_template_or_default_to_empty_string route);
      requested_path = sanitize_string req.url_path;
      method = sanitize_string req.method;
    });
  }

  -- `RequestMiddlewareEnvironments`
  unfoldable pub with_environment : Context P → EnvironmentVariables → Context P
  with_environment ctx env = record ctx { env = some env }

  -- `RequestMiddleware` and `WithValue` of the metrics
  unfoldable pub with_metrics : Context P → Metrics → Context P
  with_metrics ctx m = record ctx { metrics = some m }

  -- `MongoClientInjectorMiddleware` and `WithMongoClient`
  unfoldable pub with_mongo_client : Context P → MongoClient → Context P
  with_mongo_client ctx client = record ctx { mongo = mongo_client client }

  unfoldable pub get_partial_results_evaluators : Context P → Result (PartialResultsEvaluators P)
  get_partial_results_evaluators ctx =
      required "no policy evaluators found in request context" ctx.evaluators

  unfoldable pub get_opa_module_config : Context P → Result OpaModuleConfig
  get_opa_module_config ctx =
      required "no opa module config found in request context" ctx.opa_module

  unfoldable pub get_x_permission : Context P → Result RondConfig
  get_x_permission ctx =
      required "no permission configuration found in request context" ctx.permission

  unfoldable pub get_router_info : Context P → Result RouterInfo
  get_router_info ctx = required "no router info found" ctx.router_info

  unfoldable pub get_metrics : Context P → Result Metrics
  get_metrics ctx = required "invalid metrics in context" ctx.metrics

pub required-ok {ℓ} :
    {A : Type ℓ} (text : String) (value : Option A) (a : A)
    → required text value ≡ ok a
    → value ≡ some a
required-ok text none a h = cc
required-ok text (some b) a h = cc
