-- ===== src/Service/Server/Proxied.antt =====
-- What is known of a request that the server hands to the target service.
use mathlib.Core.Path.{subst}
use rond.Prelude.{
  String, false, Option, none, some, ok, ◌≡◌, inl, inr, refl, sym, ◌∙◌, ap, bind-ok, some-injective,
  Option-cases, ◌==◌,
}
use rond.Http.Request.{Request}
use rond.Http.Writer.{Writer}
use rond.Utils.{Lo}
use rond.Config.{EnvironmentVariables}
use rond.Openapi.{OpenApiSpec, RondConfig}
use rond.Openapi.Routes.{Registration, prepare_oas_router}
use rond.Openapi.Routing.{Origin}
use rond.Openapi.FindPermission.{Bunrouter, handled, find_permission}
use rond.Openapi.FindPermission.Recorded.{find_permission_sound}
use rond.Metrics.{setup_metrics}
use rond.Mongo.{MongoClient, MongoValue, mongo_client}
use rond.Core.Context.{
  Context, PartialResultsEvaluators, OpaModuleConfig, CurrentRoute, with_environment, with_metrics,
  with_mongo_client,
}
use rond.Core.Evaluators.{Opa}
use rond.Core.Input.{Codec}
use rond.Core.Transport.{RoundTripper, OpaTransport}
use rond.Core.Middleware.{Passage, next, answered}
use rond.Core.Middleware.Admitted.{IsAdmitted, opa_middleware-next}
use rond.Service.Handler.{Outgoing, proxied, direct, rbac_handler}
use rond.Service.Handler.Directed.{IsSentTo, direct-IsSentTo}
use rond.Service.Handler.Forwarded.{IsAllowed, rbac_handler-proxied}
use rond.Service.Router.{rbac, routes_to_not_proxy}
use rond.Service.Server.{after_opa, serve_evaluated, with_client}

module _ {V P : Type 0} (opa : Opa V P) (codec : Codec) (lo : Lo) (default_transport : RoundTripper)
    (router : Bunrouter) (config : OpaModuleConfig) (spec : OpenApiSpec)
    (env : EnvironmentVariables) (evaluators : PartialResultsEvaluators P)
    (client : Option MongoClient) where
  -- The client that the handler finds.
  abbrev pub client_of : MongoValue → MongoValue
  client_of value = elim client [ none ↦ value | some c ↦ mongo_client c ]

  -- The route of the specification that a path fits asks for the permission.
  abbrev pub Requires : String → String → RondConfig → Type 0
  Requires path method permission =
      (r : Registration) × (router.serve (prepare_oas_router spec) method path ≡ handled r)
      × (r.method ≡ method)
      × (r.config.permission_v2 ≡ some permission)
      × Origin spec r

  module _ (w : Writer) (req : Request) where
    after_opa-proxied :
        (passage : Passage P) (out : Outgoing) (transport : Option (OpaTransport P)) (w₁ : Writer)
        → after_opa opa codec lo default_transport router config spec env evaluators client rbac w
            req passage
          ≡ ok (proxied out transport w₁)
        → (passed : Context P) × (passage ≡ next passed)
          × (rbac_handler opa codec lo default_transport
                (with_client opa codec lo default_transport router config spec env evaluators client
                  passed)
                w
                req
              ≡ ok (proxied out transport w₁))
    after_opa-proxied (answered w₂) out transport w₁ h = cc
    after_opa-proxied (next passed) out transport w₁ h = (passed, refl, h)

  -- A context with that client, and the rest as it is in another one.
  abbrev pub IsInjected : Context P → Context P → Type 0
  IsInjected ctx seen =
      (seen.permission ≡ ctx.permission)
      × (seen.evaluators ≡ ctx.evaluators)
      × (seen.env ≡ ctx.env)
      × (seen.opa_module ≡ ctx.opa_module)
      × (seen.mongo ≡ client_of ctx.mongo)

  pub with_client-IsInjected :
      (ctx : Context P)
      → IsInjected ctx
          (with_client opa codec lo default_transport router config spec env evaluators client ctx)
  unfolding with_client with_mongo_client
  with_client-IsInjected ctx = elim (Option-cases client) [
    | inl e ↦ rw e (refl, refl, refl, refl, refl)
    | inr (d, e) ↦ rw e (refl, refl, refl, refl, refl)
  ]

  -- The context that the handler of a request finds: all of it is the server's own.
  abbrev pub IsServers : Context P → RondConfig → Context P → Type 0
  IsServers ctx permission seen =
      (seen.permission ≡ some permission)
      × (seen.evaluators ≡ some evaluators)
      × (seen.opa_module ≡ some config)
      × (seen.env ≡ some env)
      × (seen.mongo ≡ client_of ctx.mongo)

  -- What is sent to the target service has passed the policy of the route that it fits.
  abbrev pub IsPoliced : Context P → Request → Outgoing → Type 0
  IsPoliced ctx req out =
      (permission : RondConfig) × (sent : Request) × (seen : Context P) × Requires req.escaped_path
        req.method permission
      × ((permission.request_flow.policy_name == "") ≡ false)
      × (env.standalone ≡ false)
      × IsServers ctx permission seen
      × IsAllowed opa codec lo default_transport seen env evaluators permission req sent
      × IsSentTo env sent out

  conclude :
      (ctx seen : Context P) (req sent : Request) (e : EnvironmentVariables)
      (permission found : RondConfig) (evs : PartialResultsEvaluators P) (out : Outgoing)
      → e ≡ env
      → permission ≡ found
      → evs ≡ evaluators
      → e.standalone ≡ false
      → (env.standalone ≡ false
          → find_permission router (prepare_oas_router spec) req.escaped_path req.method
            ≡ ok (found, none))
      → (found.request_flow.policy_name == "") ≡ false
      → IsServers ctx found seen
      → IsAllowed opa codec lo default_transport seen e evs permission req sent
      → out ≡ direct e sent
      → IsPoliced ctx req out
  conclude ctx seen req sent e permission found evs out i j k standalone finds named is_servers
        allowed o =
      let finds_it = finds (rw i at standalone) in
      (
        found,
        sent,
        seen,
        find_permission_sound router spec req.escaped_path req.method found finds_it,
        named,
        rw i at standalone,
        is_servers,
        rw (i, j, k) at allowed,
        subst (IsSentTo env sent) (sym (rw i at o)) (direct-IsSentTo env sent),
      )

  module _ (route : CurrentRoute) (ctx : Context P) (w : Writer) (req : Request)
      (fresh : ctx.permission ≡ none) where
    -- What the middleware passes on to a handler that calls the proxy.
    passed-proxied :
        (passed : Context P) (out : Outgoing) (transport : Option (OpaTransport P)) (w₁ : Writer)
        → IsAdmitted lo router codec.marshal config spec env evaluators
            (routes_to_not_proxy lo)
            route
            (with_environment (with_metrics ctx (setup_metrics "rond")) env)
            w
            req
            passed
        → rbac_handler opa codec lo default_transport
            (with_client opa codec lo default_transport router config spec env evaluators client
              passed)
            w
            req
          ≡ ok (proxied out transport w₁)
        → IsPoliced ctx req out
    unfolding with_environment with_metrics
    passed-proxied passed out transport w₁ admission h =
        let seen =
          with_client opa codec lo default_transport router config spec env evaluators client
            passed in
        let (e, permission, evs, sent, is_env, standalone, found, prepared, allowed, is_out) =
          rbac_handler-proxied opa codec lo default_transport seen w req out transport w₁ h in
        let (injected, kept, kept_env, kept_module, kept_mongo) = with_client-IsInjected passed in
        let lacks : passed.permission ≡ none → IsPoliced ctx req out =
          λ q. let k = sym found ∙ injected ∙ q in cc in
        elim admission [
          | inl (_, q) ↦ lacks (ap (λ c. c.permission) q ∙ fresh)
          | inr (inl (_, _, _, _, _, q)) ↦ lacks (ap (λ c. c.permission) q ∙ fresh)
          | inr (inr (there, finds, named, has, has_evaluators, has_module, has_env, has_mongo)) ↦
              conclude ctx seen req sent e permission there evs out
                (some-injective (sym is_env ∙ kept_env ∙ has_env))
                (some-injective (sym found ∙ injected ∙ has))
                (some-injective (sym prepared ∙ kept ∙ has_evaluators)) standalone
                (λ off. rw off at finds) named
                (
                  injected ∙ has,
                  kept ∙ has_evaluators,
                  kept_module ∙ has_module,
                  kept_env ∙ has_env,
                  kept_mongo ∙ ap client_of has_mongo,
                )
                allowed is_out
        ]

    -- A request on a route of the policies, whose context is fresh, reaches the target service only
    -- if the program is not standalone, the router has picked for its path a registration of its
    -- method that the specification accounts for, whose x-rond names a policy for requests, and
    -- this policy has been evaluated for the request without an error: in the environment of the
    -- server, by its evaluators or, for a query, on its module, and with the bindings and roles that
    -- its client of the database finds, or the one that the context had where the server has none.
    -- What is sent goes by http to the host that the environment names, and is the request, with the
    -- query, if any, in its header.
    pub serve_evaluated-proxied :
        (out : Outgoing) (transport : Option (OpaTransport P)) (w₁ : Writer)
        → serve_evaluated opa codec lo default_transport router config spec env evaluators client
            rbac route ctx w req
          ≡ ok (proxied out transport w₁)
        → IsPoliced ctx req out
    unfolding serve_evaluated
    serve_evaluated-proxied out transport w₁ h =
        let (passage, p, h₁) = bind-ok _ _ _ h in
        let (passed, q, h₂) = after_opa-proxied w req passage out transport w₁ h₁ in
        passed-proxied passed out transport w₁
          (opa_middleware-next lo router codec.marshal config spec env evaluators
            (routes_to_not_proxy lo) route
            (with_environment (with_metrics ctx (setup_metrics "rond")) env) w req passed
            (p ∙ ap ok q))
          h₂
