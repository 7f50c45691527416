-- ===== src/Service/Handler/Refused.antt =====
-- What has happened when `EvaluateRequest` refuses a request with the status 200.
use rond.Prelude.{
  ℕ, String, true, [], Option, none, some, Result, ok, err, panic, GoError, Sentinel, ◌≡◌, ◌≢◌, inl,
  inr, refl, sym, ap, ◌∙◌, Bool-cases, ◌&&◌, arith,
}
use mathlib.Core.Bool.{and-eq-true_iff}
use rond.Prelude.Json.{Json}
use rond.Http.Request.{Request}
use rond.Http.Writer.{Writer}
use rond.Types.{User}
use rond.Utils.{Lo, has_application_json_content_type}
use rond.Utils.Failed.{Succeeds, not_failure}
use rond.Config.{EnvironmentVariables}
use rond.Openapi.{RondConfig}
use rond.Mongo.{retrieve_user_bindings_and_roles}
use rond.Core.Context.{Context, PartialResultsEvaluators}
use rond.Core.Evaluators.{Opa, OpaEvaluator}
use rond.Core.Evaluators.Emptied.{policy_evaluation-emptied}
use rond.Core.Input.{Codec, create_rego_query_input}
use rond.Core.Transport.{RoundTripper}
use rond.Service.Handler.{
  Evaluated, refused, or_refuse, pass_query, pass_evaluation, with_evaluator, evaluate_request,
  is_empty_query_wrap,
}
use rond.Service.Handler.Forwarded.{evaluator_of}

is_empty_query_wrap_lem :
    (o : Option Sentinel) → is_empty_query_wrap o ≡ true → o ≡ some Sentinel.empty_query
is_empty_query_wrap_lem none h = cc
is_empty_query_wrap_lem (some Sentinel.request_failed) h = cc
is_empty_query_wrap_lem (some Sentinel.not_found_oas_definition) h = cc
is_empty_query_wrap_lem (some Sentinel.file_load_failed) h = cc
is_empty_query_wrap_lem (some Sentinel.empty_query) h = refl

module _ {V P : Type 0} (opa : Opa V P) (codec : Codec) (lo : Lo)
    (default_transport : RoundTripper) where
  -- The query of a policy is to be generated, and its partial evaluation leaves none to make.
  abbrev pub IsEmptied :
      Context P → EnvironmentVariables → PartialResultsEvaluators P → RondConfig → Request → Type 0
  IsEmptied ctx env evaluators permission req =
      (user : User) × (input : String) × (evaluator : OpaEvaluator P)
      × (retrieve_user_bindings_and_roles lo ctx.mongo req env ≡ ok user)
      × (create_rego_query_input codec req env
            permission.options.enable_resource_permissions_map_optimization user none
          ≡ ok input)
      × (evaluator_of opa codec lo default_transport ctx env evaluators permission input
          ≡ ok evaluator)
      × (permission.request_flow.generate_query ≡ true)
      × (evaluator.policy_evaluator.partial ≡ ok [])
      × (has_application_json_content_type req.header ≡ true)

  module _ (ctx : Context P) (env : EnvironmentVariables) (w : Writer) (req : Request)
      (untouched : w.status ≡ none) where
    writer_of : Result Evaluated → Writer
    writer_of (ok (refused e w₁)) = w₁
    writer_of _ = w

    error_of : GoError → Result Evaluated → GoError
    error_of d (ok (refused e w₁)) = e
    error_of d _ = d

    or_refuse-refused :
        {A : Type 0} (code : ℕ) (technical business : String) (m : Result A)
        (f : A → Result Evaluated) (e : GoError) (w₁ : Writer)
        → code ≢ 200
        → or_refuse opa codec lo default_transport ctx env w req code technical business m f
          ≡ ok (refused e w₁)
        → Succeeds w₁
        → (a : A) × (m ≡ ok a) × (f a ≡ ok (refused e w₁))
    unfolding writer_of
    or_refuse-refused code technical business (ok a) f e w₁ n h s = (a, refl, h)
    or_refuse-refused code technical business (err d) f e w₁ n h s =
        absurd
          (not_failure codec.marshal w w₁ code technical business untouched n (ap writer_of h) s)
    or_refuse-refused code technical business panic f e w₁ n h s = cc

    pass_query-refused :
        (permission : RondConfig) (query : Option Json) (e : GoError) (w₁ : Writer)
        → pass_query opa codec lo default_transport ctx env w req permission query
          ≡ ok (refused e w₁)
        → Succeeds w₁
        → ⊥
    unfolding pass_query
    pass_query-refused permission none e w₁ h s = cc
    pass_query-refused permission (some query) e w₁ h s =
        let (text, p, h1) =
          or_refuse-refused _ _ _ (codec.marshal query) _ e w₁ (λ x. omega (arith, x)) h s in
        cc

    pass_evaluation-refused :
        (permission : RondConfig) (m : Result (Option Json × Option Json)) (e : GoError)
        (w₁ : Writer)
        → pass_evaluation opa codec lo default_transport ctx env w req permission m
          ≡ ok (refused e w₁)
        → Succeeds w₁
        → (m ≡ err e)
          × (e.wraps ≡ some Sentinel.empty_query)
          × (has_application_json_content_type req.header ≡ true)
    unfolding writer_of error_of
    pass_evaluation-refused permission (ok (evaluation, query)) e w₁ h s =
        absurd (pass_query-refused permission query e w₁ h s)
    pass_evaluation-refused permission (err d) e w₁ h s =
        elim (Bool-cases
          (is_empty_query_wrap d.wraps && has_application_json_content_type req.header)) [
            | inl p ↦
                let (wraps, json) = (and-eq-true_iff _ _).0 p in
                let same : d ≡ e = ap (error_of d) (rw p at h) in
                (
                  ap err same,
                  ap (λ x. x.wraps) (sym same) ∙ is_empty_query_wrap_lem d.wraps wraps,
                  json,
                )
            | inr p ↦ absurd (
                not_failure codec.marshal w w₁ _ _ _ untouched (λ x. omega (arith, x))
                  (ap writer_of (rw p at h)) s)
          ]
    pass_evaluation-refused permission panic e w₁ h s = cc

    with_evaluator-refused :
        (evaluators : PartialResultsEvaluators P) (permission : RondConfig) (input : String)
        (f : OpaEvaluator P → Result Evaluated) (e : GoError) (w₁ : Writer)
        → with_evaluator opa codec lo default_transport ctx env w req evaluators permission input f
          ≡ ok (refused e w₁)
        → Succeeds w₁
        → (evaluator : OpaEvaluator P) × (evaluator_of opa codec lo default_transport ctx env
              evaluators permission input
            ≡ ok evaluator)
          × (f evaluator ≡ ok (refused e w₁))
    with_evaluator-refused evaluators permission input f e w₁ h s =
        elim (Bool-cases permission.request_flow.generate_query) [
          | inl g ↦ rw g (or_refuse-refused _ _ _ _ f e w₁ (λ x. omega (arith, x)) (rw g at h) s)
          | inr g ↦ rw g (or_refuse-refused _ _ _ _ f e w₁ (λ x. omega (arith, x)) (rw g at h) s)
        ]

    pub evaluate_request-refused :
        (evaluators : PartialResultsEvaluators P) (permission : RondConfig) (e : GoError)
        (w₁ : Writer)
        → evaluate_request opa codec lo default_transport ctx env w req evaluators permission
          ≡ ok (refused e w₁)
        → Succeeds w₁
        → IsEmptied ctx env evaluators permission req
    unfolding evaluate_request
    evaluate_request-refused evaluators permission e w₁ h s =
        let (user, p, h1) = or_refuse-refused _ _ _ _ _ e w₁ (λ x. omega (arith, x)) h s in
        let (input, q, h2) = or_refuse-refused _ _ _ _ _ e w₁ (λ x. omega (arith, x)) h1 s in
        let (evaluator, r, h3) = with_evaluator-refused evaluators permission input _ e w₁ h2 s in
        let (failed, wraps, json) = pass_evaluation-refused permission _ e w₁ h3 s in
        let (generated, emptied) =
          policy_evaluation-emptied opa lo evaluator permission e failed wraps in
        (user, input, evaluator, p, q, r, generated, emptied, json)
