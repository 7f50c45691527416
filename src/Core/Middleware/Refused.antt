-- ===== src/Core/Middleware/Refused.antt =====
-- When the middleware of core/opamiddleware.go answers a request itself.
use rond.Prelude.Json.{Marshal}
use rond.Prelude.{
  List, String, Option, none, some, ok, GoError, ◌≡◌, ◌≢◌, inl, inr, ap, bind-ok, ok-injective,
  Bool-cases, ◌==◌, ◌&&◌, ◌||◌, arith,
}
use rond.Http.Request.{Request}
use rond.Http.Writer.{Writer}
use rond.Utils.{Lo}
use rond.Utils.Failed.{Succeeds, not_failure}
use rond.Config.{EnvironmentVariables}
use rond.Openapi.{OpenApiSpec}
use rond.Openapi.Routes.{prepare_oas_router}
use rond.Openapi.FindPermission.{Bunrouter, Found, find_permission}
use rond.Core.Context.{Context, PartialResultsEvaluators, OpaModuleConfig, CurrentRoute}
use rond.Core.Middleware.{
  Passage, next, answered, opa_middleware, admit, is_some, status_of, technical_error_of,
  error_message_of, is_not_found_wrap, path_to_find,
}

status_of-ne : (e : Option GoError) → status_of e ≢ 200
status_of-ne none h = omega (arith, h)
status_of-ne (some e) h = elim (Bool-cases (is_not_found_wrap e.wraps)) [
  | inl f ↦ omega (arith, rw f at h)
  | inr f ↦ omega (arith, rw f at h)
]

module _ {P : Type 0} (lo : Lo) (router : Bunrouter) (marshal : Marshal) (config : OpaModuleConfig)
    (spec : OpenApiSpec) (env : EnvironmentVariables) (evaluators : PartialResultsEvaluators P)
    (excluded : List String) (route : CurrentRoute) (ctx : Context P) (w : Writer) (req : Request)
    (untouched : w.status ≡ none) where
  writer_or : Passage P → Writer
  writer_or (answered w₁) = w₁
  writer_or (next passed) = w

  -- The middleware itself never answers 200.
  admit-answered :
      (found : Found) (w₁ : Writer)
      → admit lo router marshal config spec env evaluators excluded route ctx w req found
        ≡ answered w₁
      → Succeeds w₁
      → ⊥
  unfolding admit writer_or
  admit-answered (permission, e) w₁ h s =
      elim (Bool-cases (
        req.method == "GET"
        && req.url_path == env.target_service_oas_path
        && permission.request_flow.policy_name == "")) [
          | inl d ↦ let k = rw d at h in cc
          | inr d ↦ elim (Bool-cases (is_some e || permission.request_flow.policy_name == "")) [
            | inl f ↦
                not_failure marshal w w₁ (status_of e) (technical_error_of e) (error_message_of e)
                  untouched (status_of-ne e) (ap writer_or (rw (d, f) at h)) s
            | inr f ↦ let k = rw (d, f) at h in cc
          ]
        ]

  pub opa_middleware-answered :
      (w₁ : Writer)
      → opa_middleware lo router marshal config spec env evaluators excluded route ctx w req
        ≡ ok (answered w₁)
      → Succeeds w₁
      → ⊥
  unfolding opa_middleware
  opa_middleware-answered w₁ h s = elim (Bool-cases (lo.contains excluded req.request_uri)) [
    | inl e ↦ let k = rw e at h in cc
    | inr e ↦
        let (found, p, h1) =
          bind-ok
            (find_permission router (prepare_oas_router spec)
              (path_to_find lo router marshal config spec env evaluators excluded route ctx w req)
              req.method)
            (λ f.
              ok (admit lo router marshal config spec env evaluators excluded route ctx w req f))
            (answered w₁) (rw e at h) in
        admit-answered found w₁ (ok-injective h1) s
  ]
