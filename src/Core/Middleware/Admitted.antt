-- ===== src/Core/Middleware/Admitted.antt =====
-- When the middleware lets a request pass.
use rond.Prelude.{
  String, Bool, true, false, ◌&&◌, ◌||◌, List, Option, none, some, ok, GoError, ◌≡◌, ◌⊎◌, inl, inr,
  refl, ◌==◌, Bool-cases, bind-ok, ap, ◌∙◌, arith,
}
use rond.Prelude.Json.{Marshal}
use rond.Http.Request.{Request}
use rond.Http.Writer.{Writer}
use rond.Utils.{Lo}
use rond.Config.{EnvironmentVariables}
use rond.Openapi.{OpenApiSpec, RondConfig}
use rond.Openapi.Routes.{prepare_oas_router}
use rond.Openapi.FindPermission.{Bunrouter, Found, find_permission}
use rond.Core.Context.{
  Context, PartialResultsEvaluators, OpaModuleConfig, CurrentRoute, with_x_permission,
  with_opa_module_config, with_partial_results_evaluators, with_router_info,
}
use rond.Core.Middleware.{Passage, next, is_some, path_to_find, admitted, admit, opa_middleware}

module _ {P : Type 0} (lo : Lo) (router : Bunrouter) (marshal : Marshal) (config : OpaModuleConfig)
    (spec : OpenApiSpec) (envs : EnvironmentVariables) (evaluators : PartialResultsEvaluators P)
    (excluded : List String) (route : CurrentRoute) (ctx : Context P) (w : Writer)
    (r : Request) where
  -- A request of the documentation of the API.
  abbrev pub is_documentation : Bool
  is_documentation = r.method == "GET" && r.url_path == envs.target_service_oas_path

  -- The ways by a permission found: to the documentation, without a policy, or with one.
  abbrev pub IsFound : Context P → Type 0
  IsFound passed =
      ((permission : RondConfig) × (e : Option GoError) × (find_permission router
            (prepare_oas_router spec)
            (path_to_find lo router marshal config spec envs evaluators excluded route ctx w r)
            r.method
          ≡ ok (permission, e))
        × (is_documentation ≡ true)
        × ((permission.request_flow.policy_name == "") ≡ true)
        × (passed ≡ ctx))
      ⊎ ((permission : RondConfig) × (find_permission router (prepare_oas_router spec)
              (path_to_find lo router marshal config spec envs evaluators excluded route ctx w r)
              r.method
            ≡ ok (permission, none))
          × ((permission.request_flow.policy_name == "") ≡ false)
          × (passed.permission ≡ some permission)
          × (passed.evaluators ≡ some evaluators)
          × (passed.opa_module ≡ some config)
          × (passed.env ≡ ctx.env)
          × (passed.mongo ≡ ctx.mongo))

  -- The three ways to the next handler.
  abbrev pub IsAdmitted : Context P → Type 0
  IsAdmitted passed =
      ((lo.contains excluded r.request_uri ≡ true) × (passed ≡ ctx)) ⊎ IsFound passed

  -- What is known of a found permission with which the request passes.
  admit-next :
      (permission : RondConfig) (e : Option GoError) (passed : Context P)
      → admit lo router marshal config spec envs evaluators excluded route ctx w r (permission, e)
        ≡ next passed
      → ((is_documentation ≡ true)
          × ((permission.request_flow.policy_name == "") ≡ true)
          × (passed ≡ ctx))
        ⊎ ((e ≡ none)
            × ((permission.request_flow.policy_name == "") ≡ false)
            × (passed
                ≡ admitted lo router marshal config spec envs evaluators excluded route ctx w r
                    (permission, none)))
  unfolding admit admitted
  admit-next permission e passed h =
      elim (Bool-cases (
        r.method == "GET"
        && r.url_path == envs.target_service_oas_path
        && permission.request_flow.policy_name == "")) [
          | inl d ↦ let k = rw d at h in inl (ground arith, ground arith, cc)
          | inr d ↦ elim (Bool-cases (is_some e || permission.request_flow.policy_name == "")) [
            | inl f ↦ let k = rw (d, f) at h in cc
            | inr f ↦ let k = rw (d, f) at h in inr (none_of e (ground arith), ground arith, cc)
          ]
        ]
    where
      none_of : (o : Option GoError) → is_some o ≡ false → o ≡ none
      none_of none h = refl
      none_of (some a) h = cc

  -- The middleware calls the next handler only for a request that it is told not to proxy, for one
  -- of the documentation whose permission names no policy (both with the context unchanged), or
  -- with the permission that FindPermission finds without an error, which names a policy, the
  -- evaluators and the module, in the context, whose environment and client are kept.
  pub opa_middleware-next :
      (passed : Context P)
      → opa_middleware lo router marshal config spec envs evaluators excluded route ctx w r
        ≡ ok (next passed)
      → IsAdmitted passed
  unfolding opa_middleware admitted with_x_permission with_opa_module_config
      with_partial_results_evaluators with_router_info
  opa_middleware-next passed h = elim (Bool-cases (lo.contains excluded r.request_uri)) [
    | inl e ↦ let k = rw e at h in inl (e, cc)
    | inr e ↦
        let (found, p, h1) =
          bind-ok
            (find_permission router (prepare_oas_router spec)
              (path_to_find lo router marshal config spec envs evaluators excluded route ctx w r)
              r.method)
            (λ f. ok (admit lo router marshal config spec envs evaluators excluded route ctx w r f))
            (next passed) (rw e at h) in
        inr (by_found found p (passage_of h1))
  ]
    where
      passage_of : {x y : Passage P} → ok x ≡ ok y → x ≡ y
      passage_of q = cc

      pair : RondConfig → Option GoError → Found
      pair permission e = (permission, e)

      by_found :
          (found : Found)
          → find_permission router
              (prepare_oas_router spec)
              (path_to_find lo router marshal config spec envs evaluators excluded route ctx w r)
              r.method
            ≡ ok found
          → admit lo router marshal config spec envs evaluators excluded route ctx w r found
            ≡ next passed
          → IsFound passed
      by_found (permission, error) p h1 = elim (admit-next permission error passed h1) [
        | inl (d, n, q) ↦ inl (permission, error, p, d, n, q)
        | inr (n, policy, q) ↦ inr (
          permission,
          p ∙ ap (λ o. ok (pair permission o)) n,
          policy,
          ap (λ c. c.permission) q,
          ap (λ c. c.evaluators) q,
          ap (λ c. c.opa_module) q,
          ap (λ c. c.env) q,
          ap (λ c. c.mongo) q,
        )
      ]
