-- ===== src/Service/Handler/Forwarded.antt =====
-- What has happened when `rbacHandler` calls the proxy.
use rond.Prelude.{
  ℕ, String, false, Option, none, some, Result, ok, err, panic, ◌≡◌, refl, inl, inr, Bool-cases,
  bind-ok, ◌&&◌, ◌∙◌, ap, if◌then◌else◌,
}
use rond.Prelude.Json.{Json}
use rond.Http.Header.{set}
use rond.Http.Request.{Request}
use rond.Http.Writer.{Writer}
use rond.Types.{User}
use rond.Utils.{Lo, has_application_json_content_type}
use rond.Config.{EnvironmentVariables, get_env, get_env-ok}
use rond.Openapi.{RondConfig}
use rond.Mongo.{retrieve_user_bindings_and_roles}
use rond.Core.Context.{
  Context, PartialResultsEvaluators, get_x_permission, get_partial_results_evaluators, required-ok,
}
use rond.Core.Evaluators.{
  Opa, OpaEvaluator, get_evaluator_from_policy, create_query_evaluator, policy_evaluation,
}
use rond.Core.Input.{Codec, create_rego_query_input}
use rond.Core.Transport.{RoundTripper, OpaTransport}
use rond.Service.Handler.{
  Outgoing, Outcome, proxied, Evaluated, refused, passed, query_header_key, direct, reverse_proxy,
  reverse_proxy_or_response, or_refuse, pass_query, pass_evaluation, with_evaluator,
  evaluate_request, or_fail, after_evaluation, rbac_handler, is_empty_query_wrap,
}

module _ {V P : Type 0} (opa : Opa V P) (codec : Codec) (lo : Lo)
    (default_transport : RoundTripper) where
  -- The evaluator of the request flow's policy: the prepared one, or a new one to generate a query.
  abbrev pub evaluator_of :
      Context P
      → EnvironmentVariables
      → PartialResultsEvaluators P
      → RondConfig
      → String
      → Result (OpaEvaluator P)
  evaluator_of ctx env evaluators permission input =
      let policy = permission.request_flow.policy_name in
      if permission.request_flow.generate_query
      then create_query_evaluator opa ctx env policy input
      else get_evaluator_from_policy opa evaluators ctx policy input env

  -- The request that is passed on with a query.
  abbrev pub IsQueried : RondConfig → Request → Option Json → Request → Type 0
  IsQueried permission req none sent = sent ≡ req
  IsQueried permission req (some query) sent =
      (text : String) × (codec.marshal query ≡ ok text)
      × (sent ≡ record req { header = set req.header (query_header_key permission) text })

  -- The policy of the request has been evaluated for the user of the request, without an error.
  abbrev pub IsAllowed :
      Context P
      → EnvironmentVariables
      → PartialResultsEvaluators P
      → RondConfig
      → Request
      → Request
      → Type 0
  IsAllowed ctx env evaluators permission req sent =
      (user : User) × (input : String) × (evaluator : OpaEvaluator P) × (evaluation : Option Json)
      × (query : Option Json) × (retrieve_user_bindings_and_roles lo ctx.mongo req env ≡ ok user)
      × (create_rego_query_input codec req env
            permission.options.enable_resource_permissions_map_optimization user none
          ≡ ok input)
      × (evaluator_of ctx env evaluators permission input ≡ ok evaluator)
      × (policy_evaluation opa lo evaluator permission ≡ ok (evaluation, query))
      × IsQueried permission req query sent

  module _ (ctx : Context P) (env : EnvironmentVariables) (w : Writer) (req : Request) where
    or_refuse-passed :
        {A : Type 0} (code : ℕ) (technical business : String) (m : Result A)
        (f : A → Result Evaluated) (sent : Request) (w₁ : Writer)
        → or_refuse opa codec lo default_transport ctx env w req code technical business m f
          ≡ ok (passed sent w₁)
        → (a : A) × (m ≡ ok a) × (f a ≡ ok (passed sent w₁))
    or_refuse-passed code technical business (ok a) f sent w₁ h = (a, refl, h)
    or_refuse-passed code technical business (err e) f sent w₁ h = cc
    or_refuse-passed code technical business panic f sent w₁ h = cc

    pass_query-passed :
        (permission : RondConfig) (query : Option Json) (sent : Request) (w₁ : Writer)
        → pass_query opa codec lo default_transport ctx env w req permission query
          ≡ ok (passed sent w₁)
        → IsQueried permission req query sent
    unfolding pass_query
    pass_query-passed permission none sent w₁ h = cc
    pass_query-passed permission (some query) sent w₁ h =
        let (text, p, h1) = or_refuse-passed _ _ _ (codec.marshal query) _ sent w₁ h in
        (text, p, cc)

    pass_evaluation-passed :
        (permission : RondConfig) (m : Result (Option Json × Option Json)) (sent : Request)
        (w₁ : Writer)
        → pass_evaluation opa codec lo default_transport ctx env w req permission m
          ≡ ok (passed sent w₁)
        → (evaluation : Option Json) × (query : Option Json) × (m ≡ ok (evaluation, query))
          × IsQueried permission req query sent
    pass_evaluation-passed permission (ok (evaluation, query)) sent w₁ h =
        (evaluation, query, refl, pass_query-passed permission query sent w₁ h)
    pass_evaluation-passed permission (err e) sent w₁ h =
        elim (Bool-cases
          (is_empty_query_wrap e.wraps && has_application_json_content_type req.header)) [
            | inl p ↦ let k = rw p at h in cc
            | inr p ↦ let k = rw p at h in cc
          ]
    pass_evaluation-passed permission panic sent w₁ h = cc

    with_evaluator-passed :
        (evaluators : PartialResultsEvaluators P) (permission : RondConfig) (input : String)
        (f : OpaEvaluator P → Result Evaluated) (sent : Request) (w₁ : Writer)
        → with_evaluator opa codec lo default_transport ctx env w req evaluators permission input f
          ≡ ok (passed sent w₁)
        → (evaluator : OpaEvaluator P) × (evaluator_of ctx env evaluators permission input
            ≡ ok evaluator)
          × (f evaluator ≡ ok (passed sent w₁))
    with_evaluator-passed evaluators permission input f sent w₁ h =
        elim (Bool-cases permission.request_flow.generate_query) [
          | inl e ↦ rw e (or_refuse-passed _ _ _ _ f sent w₁ (rw e at h))
          | inr e ↦ rw e (or_refuse-passed _ _ _ _ f sent w₁ (rw e at h))
        ]

    pub evaluate_request-passed :
        (evaluators : PartialResultsEvaluators P) (permission : RondConfig) (sent : Request)
        (w₁ : Writer)
        → evaluate_request opa codec lo default_transport ctx env w req evaluators permission
          ≡ ok (passed sent w₁)
        → IsAllowed ctx env evaluators permission req sent
    unfolding evaluate_request
    evaluate_request-passed evaluators permission sent w₁ h =
        let (user, p, h1) = or_refuse-passed _ _ _ _ _ sent w₁ h in
        let (input, q, h2) = or_refuse-passed _ _ _ _ _ sent w₁ h1 in
        let (evaluator, r, h3) = with_evaluator-passed evaluators permission input _ sent w₁ h2 in
        let (evaluation, query, s, queried) = pass_evaluation-passed permission _ sent w₁ h3 in
        (user, input, evaluator, evaluation, query, p, q, r, s, queried)

  or_fail-proxied :
      {A : Type 0} (w : Writer) (technical : String) (m : Result A) (f : A → Result (Outcome P))
      (out : Outgoing) (transport : Option (OpaTransport P)) (w₁ : Writer)
      → or_fail opa codec lo default_transport w technical m f ≡ ok (proxied out transport w₁)
      → (a : A) × (m ≡ ok a) × (f a ≡ ok (proxied out transport w₁))
  or_fail-proxied w technical (ok a) f out transport w₁ h = (a, refl, h)
  or_fail-proxied w technical (err e) f out transport w₁ h = cc
  or_fail-proxied w technical panic f out transport w₁ h = cc

  after_evaluation-proxied :
      (ctx : Context P) (env : EnvironmentVariables) (permission : RondConfig)
      (evaluators : PartialResultsEvaluators P) (evaluated : Evaluated) (out : Outgoing)
      (transport : Option (OpaTransport P)) (w₁ : Writer)
      → after_evaluation opa codec lo default_transport ctx env (permission, evaluators) evaluated
        ≡ ok (proxied out transport w₁)
      → (sent : Request) × (w₂ : Writer) × (evaluated ≡ passed sent w₂)
        × (env.standalone ≡ false)
        × (out ≡ direct env sent)
  unfolding reverse_proxy_or_response reverse_proxy
  after_evaluation-proxied ctx env permission evaluators (refused e w) out transport w₁ h = cc
  after_evaluation-proxied ctx env permission evaluators (passed sent w) out transport w₁ h =
      elim (Bool-cases env.standalone) [
        | inl e ↦ let k = rw e at h in cc
        | inr e ↦ let k = rw e at h in (sent, w, refl, e, cc)
      ]

-- When `rbacHandler` calls the proxy, the program is not standalone, its context has an environment,
-- a permission and evaluators, the policy of the permission's request flow has been evaluated
-- without an error, by the evaluator that belongs to it, on an input made for the user whom the
-- headers name with the bindings and roles found, and what is sent is the request, with the query
-- of the evaluation, where there is one, in the header for it.
pub rbac_handler-proxied :
    {V P : Type 0} (opa : Opa V P) (codec : Codec) (lo : Lo) (default_transport : RoundTripper)
    (ctx : Context P) (w : Writer) (req : Request) (out : Outgoing)
    (transport : Option (OpaTransport P)) (w₁ : Writer)
    → rbac_handler opa codec lo default_transport ctx w req ≡ ok (proxied out transport w₁)
    → (env : EnvironmentVariables) × (permission : RondConfig)
      × (evaluators : PartialResultsEvaluators P) × (sent : Request) × (ctx.env ≡ some env)
      × (env.standalone ≡ false)
      × (ctx.permission ≡ some permission)
      × (ctx.evaluators ≡ some evaluators)
      × IsAllowed opa codec lo default_transport ctx env evaluators permission req sent
      × (out ≡ direct env sent)
unfolding rbac_handler get_env get_x_permission get_partial_results_evaluators
rbac_handler-proxied opa codec lo dt ctx w req out transport w₁ h =
    let (env, p, h1) = or_fail-proxied opa codec lo dt w _ _ _ out transport w₁ h in
    let (permission, q, h2) = or_fail-proxied opa codec lo dt w _ _ _ out transport w₁ h1 in
    let (evaluators, r, h3) = or_fail-proxied opa codec lo dt w _ _ _ out transport w₁ h2 in
    let (evaluated, s, h4) = bind-ok _ _ _ h3 in
    let (sent, w₂, is_passed, standalone, is_out) =
      after_evaluation-proxied opa codec lo dt ctx env permission evaluators evaluated out transport
        w₁ h4 in
    (
      env,
      permission,
      evaluators,
      sent,
      get_env-ok ctx.env env p,
      standalone,
      required-ok _ _ permission q,
      required-ok _ _ evaluators r,
      evaluate_request-passed opa codec lo dt ctx env w req evaluators permission sent w₂
          (s ∙ ap ok is_passed),
      is_out,
    )
