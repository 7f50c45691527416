-- ===== src/Core/Middleware.antt =====
-- core/opamiddleware.go: what happens to a request before its handler. The current route, of
-- github.com/gorilla/mux, is a parameter.
pub mod Admitted
pub mod Refused
use rond.Prelude.{
  ℕ, String, Bool, true, false, ◌&&◌, ◌||◌, List, Option, none, some, Result, ok, GoError, Sentinel,
  ◌==◌, if◌then◌else◌, ◌>>=◌,
}
use rond.Prelude.Text.{replace_first}
use rond.Prelude.Json.{Marshal}
use rond.Http.Request.{Request}
use rond.Http.Writer.{Writer}
use rond.Utils.{Lo, fail_response_with_code}
use rond.Config.{EnvironmentVariables}
use rond.Openapi.{OpenApiSpec}
use rond.Openapi.Routes.{prepare_oas_router}
use rond.Openapi.FindPermission.{Bunrouter, Found, find_permission}
use rond.Core.Context.{
  Context, PartialResultsEvaluators, OpaModuleConfig, CurrentRoute, with_router_info,
  with_x_permission, with_opa_module_config, with_partial_results_evaluators,
}

-- The next handler is called with a context, or the request is answered.
pub data Passage (P : Type 0) : Type 0 where
  next : Context P → Passage P
  answered : Writer → Passage P

-- errors.Is(err, openapi.ErrNotFoundOASDefinition)
abbrev pub is_not_found_wrap : Option Sentinel → Bool
is_not_found_wrap (some Sentinel.not_found_oas_definition) = true
is_not_found_wrap _ = false

abbrev pub status_of : Option GoError → ℕ
status_of none = 403
status_of (some e) = if is_not_found_wrap e.wraps then 404 else 403

abbrev pub technical_error_of : Option GoError → String
technical_error_of none = ""
technical_error_of (some e) = e.message

abbrev pub error_message_of : Option GoError → String
error_message_of none = "User is not allowed to request the API"
error_message_of (some e) = "The request doesn't match any known API"

abbrev pub is_some {ℓ} : {A : Type ℓ} → Option A → Bool
is_some none = false
is_some (some a) = true

module _ {P : Type 0} (lo : Lo) (router : Bunrouter) (marshal : Marshal) where
  module _ (config : OpaModuleConfig) (spec : OpenApiSpec) (envs : EnvironmentVariables)
      (evaluators : PartialResultsEvaluators P) (routes_to_not_proxy : List String)
      (route : CurrentRoute) (ctx : Context P) (w : Writer) (r : Request) where
    abbrev pub path_to_find : String
    path_to_find =
        if envs.standalone
        then replace_first envs.path_prefix_standalone "" r.escaped_path
        else r.escaped_path

    -- The context of the next handler, with the permission found.
    unfoldable pub admitted : Found → Context P
    admitted (permission, _) =
        with_x_permission
          (with_opa_module_config
            (with_partial_results_evaluators (with_router_info route ctx r) evaluators) config)
          permission

    unfoldable pub admit : Found → Passage P
    admit (permission, e) =
        let policy_name = permission.request_flow.policy_name in
        if r.method == "GET" && r.url_path == envs.target_service_oas_path && policy_name == ""
        then next ctx
        else if is_some e || policy_name == ""
        then answered (
            fail_response_with_code marshal w (status_of e) (technical_error_of e)
              (error_message_of e))
        else next (admitted (permission, e))

    -- `OPAMiddleware`
    unfoldable pub opa_middleware : Result (Passage P)
    opa_middleware =
        if lo.contains routes_to_not_proxy r.request_uri
        then ok (next ctx)
        else (find_permission router (prepare_oas_router spec) path_to_find r.method >>= λ found.
            ok (admit found))
