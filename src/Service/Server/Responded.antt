-- ===== src/Service/Server/Responded.antt =====
-- What is known of a request that the server answers with the status 200.
use rond.Prelude.{
  String, false, Option, none, some, Result, ok, ◌≡◌, inl, inr, sym, ◌∙◌, ap, bind-ok,
  some-injective, ◌==◌, if◌then◌else◌,
}
use rond.Prelude.Text.{replace_first}
use rond.Http.Request.{Request}
use rond.Http.Writer.{Writer}
use rond.Utils.{Lo}
use rond.Utils.Failed.{Succeeds}
use rond.Config.{EnvironmentVariables}
use rond.Openapi.{OpenApiSpec, RondConfig}
use rond.Openapi.Routes.{prepare_oas_router}
use rond.Openapi.FindPermission.{Bunrouter, find_permission}
use rond.Openapi.FindPermission.Recorded.{find_permission_sound}
use rond.Metrics.{setup_metrics}
use rond.Mongo.{MongoClient}
use rond.Core.Context.{
  Context, PartialResultsEvaluators, OpaModuleConfig, CurrentRoute, with_environment, with_metrics,
}
use rond.Core.Evaluators.{Opa}
use rond.Core.Input.{Codec}
use rond.Core.Transport.{RoundTripper}
use rond.Core.Middleware.{Passage, next, answered, opa_middleware}
use rond.Core.Middleware.Admitted.{IsAdmitted, opa_middleware-next}
use rond.Core.Middleware.Refused.{opa_middleware-answered}
use rond.Service.Handler.{Outcome, responded, rbac_handler}
use rond.Service.Handler.Responded.{IsGranted, rbac_handler-responded}
use rond.Service.Router.{rbac, routes_to_not_proxy}
use rond.Service.Server.{after_opa, serve_evaluated, with_client}
use rond.Service.Server.Proxied.{client_of, IsServers, Requires, with_client-IsInjected}

module _ {V P : Type 0} (opa : Opa V P) (codec : Codec) (lo : Lo) (default_transport : RoundTripper)
    (router : Bunrouter) (config : OpaModuleConfig) (spec : OpenApiSpec)
    (env : EnvironmentVariables) (evaluators : PartialResultsEvaluators P)
    (client : Option MongoClient) where
  -- The path that the specification is asked for: in standalone mode, without the prefix.
  abbrev pub path_of : Request → String
  path_of req =
      if env.standalone
      then replace_first env.path_prefix_standalone "" req.escaped_path
      else req.escaped_path

  -- The policy of the route that the request fits has been evaluated, and grants it.
  abbrev pub IsAnswered : Context P → Request → Type 0
  IsAnswered ctx req =
      (permission : RondConfig) × (seen : Context P) × Requires opa codec lo default_transport
        router config spec env evaluators client (path_of req) req.method permission
      × ((permission.request_flow.policy_name == "") ≡ false)
      × IsServers opa codec lo default_transport router config spec env evaluators client ctx
          permission seen
      × IsGranted opa codec lo default_transport seen env evaluators permission req

  conclude :
      (ctx seen : Context P) (req : Request) (e : EnvironmentVariables)
      (permission found : RondConfig) (evs : PartialResultsEvaluators P)
      → e ≡ env
      → permission ≡ found
      → evs ≡ evaluators
      → find_permission router (prepare_oas_router spec) (path_of req) req.method ≡ ok (found, none)
      → (found.request_flow.policy_name == "") ≡ false
      → IsServers opa codec lo default_transport router config spec env evaluators client ctx found
          seen
      → IsGranted opa codec lo default_transport seen e evs permission req
      → IsAnswered ctx req
  conclude ctx seen req e permission found evs i j k finds named is_servers granted = (
    found,
    seen,
    find_permission_sound router spec (path_of req) req.method found finds,
    named,
    is_servers,
    rw (i, j, k) at granted,
  )

  module _ (route : CurrentRoute) (ctx : Context P) (w : Writer) (req : Request)
      (fresh : ctx.permission ≡ none) (untouched : w.status ≡ none) where
    -- What the middleware passes on to a handler that answers 200.
    passed-responded :
        (passed : Context P) (w₁ : Writer)
        → IsAdmitted lo router codec.marshal config spec env evaluators
            (routes_to_not_proxy lo)
            route
            (with_environment (with_metrics ctx (setup_metrics "rond")) env)
            w
            req
            passed
        → rbac_handler opa codec lo default_transport
            (with_client opa codec lo default_transport router config spec env evaluators client
              passed)
            w
            req
          ≡ ok (responded w₁)
        → Succeeds w₁
        → IsAnswered ctx req
    unfolding with_environment with_metrics
    passed-responded passed w₁ admission h s =
        let seen =
          with_client opa codec lo default_transport router config spec env evaluators client
            passed in
        let (e, permission, evs, is_env, found, prepared, granted) =
          rbac_handler-responded opa codec lo default_transport seen w req w₁ untouched h s in
        let (injected, kept, kept_env, kept_module, kept_mongo) =
          with_client-IsInjected opa codec lo default_transport router config spec env evaluators
            client passed in
        let lacks : passed.permission ≡ none → IsAnswered ctx req =
          λ q. let k = sym found ∙ injected ∙ q in cc in
        elim admission [
          | inl (_, q) ↦ lacks (ap (λ c. c.permission) q ∙ fresh)
          | inr (inl (_, _, _, _, _, q)) ↦ lacks (ap (λ c. c.permission) q ∙ fresh)
          | inr (inr (there, finds, named, has, has_evaluators, has_module, has_env, has_mongo)) ↦
              conclude ctx seen req e permission there evs
                (some-injective (sym is_env ∙ kept_env ∙ has_env))
                (some-injective (sym found ∙ injected ∙ has))
                (some-injective (sym prepared ∙ kept ∙ has_evaluators)) finds named
                (
                  injected ∙ has,
                  kept ∙ has_evaluators,
                  kept_module ∙ has_module,
                  kept_env ∙ has_env,
                  kept_mongo
                      ∙ ap
                          (client_of opa codec lo default_transport router config spec env
                            evaluators client)
                          has_mongo,
                )
                granted
        ]

    -- A request on a route of the policies, whose context is fresh and to which nothing has been
    -- answered yet, is answered 200 by the server itself only if the specification has a route for
    -- its path whose x-rond names a policy for requests, and either the program is standalone and
    -- this policy has been evaluated for the request without an error, or the partial evaluation of
    -- the policy leaves no query to make, and the client asks for JSON. The policy is evaluated with
    -- the module, the evaluators and the environment of the server, and with its client of the
    -- database, or with the one that the context had where the server has none.
    pub serve_evaluated-responded :
        (w₁ : Writer)
        → serve_evaluated opa codec lo default_transport router config spec env evaluators client
            rbac route ctx w req
          ≡ ok (responded w₁)
        → w₁.status ≡ some 200
        → IsAnswered ctx req
    unfolding serve_evaluated
    serve_evaluated-responded w₁ h s =
        let (passage, p, h₁) = bind-ok _ _ _ h in by_passage passage p h₁
      where
        outcome_writer : Result (Outcome P) → Writer
        outcome_writer (ok (responded w₂)) = w₂
        outcome_writer _ = w

        by_passage :
            (passage : Passage P)
            → opa_middleware lo router codec.marshal config spec env evaluators
                (routes_to_not_proxy lo)
                route
                (with_environment (with_metrics ctx (setup_metrics "rond")) env)
                w
                req
              ≡ ok passage
            → after_opa opa codec lo default_transport router config spec env evaluators client rbac
                w req passage
              ≡ ok (responded w₁)
            → IsAnswered ctx req
        by_passage (answered w₂) p h₁ = absurd (
            opa_middleware-answered lo router codec.marshal config spec env evaluators
              (routes_to_not_proxy lo) route
              (with_environment (with_metrics ctx (setup_metrics "rond")) env) w req untouched w₂ p
              (ap (λ x. x.status) (ap outcome_writer h₁) ∙ s))
        by_passage (next passed) p h₁ =
            passed-responded passed w₁
              (opa_middleware-next lo router codec.marshal config spec env evaluators
                (routes_to_not_proxy lo) route
                (with_environment (with_metrics ctx (setup_metrics "rond")) env) w req passed p)
              h₁ s
