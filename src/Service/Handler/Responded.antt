-- ===== src/Service/Handler/Responded.antt =====
-- What has happened when `rbacHandler` answers a request with the status 200.
use rond.Prelude.{
  String, true, none, some, Result, ok, err, panic, ◌≡◌, ◌⊎◌, inl, inr, refl, ap, ◌∙◌, Bool-cases,
  bind-ok, arith,
}
use rond.Http.Request.{Request}
use rond.Http.Writer.{Writer}
use rond.Utils.{Lo, fail_response}
use rond.Utils.Failed.{Succeeds, not_failure}
use rond.Config.{EnvironmentVariables, get_env-ok}
use rond.Openapi.{RondConfig}
use rond.Core.Context.{
  Context, PartialResultsEvaluators, get_x_permission, get_partial_results_evaluators, required-ok,
}
use rond.Core.Evaluators.{Opa}
use rond.Core.Input.{Codec}
use rond.Core.Transport.{RoundTripper}
use rond.Service.Handler.{
  Outcome, responded, Evaluated, refused, passed, reverse_proxy, reverse_proxy_or_response,
  evaluate_request, or_fail, after_evaluation, rbac_handler,
}
use rond.Service.Handler.Refused.{IsEmptied, evaluate_request-refused}
use rond.Service.Handler.Forwarded.{IsAllowed, evaluate_request-passed}

module _ {V P : Type 0} (opa : Opa V P) (codec : Codec) (lo : Lo)
    (default_transport : RoundTripper) where
  or_fail-responded :
      {A : Type 0} (w : Writer) (technical : String) (m : Result A) (f : A → Result (Outcome P))
      (w₁ : Writer)
      → w.status ≡ none
      → or_fail opa codec lo default_transport w technical m f ≡ ok (responded w₁)
      → Succeeds w₁
      → (a : A) × (m ≡ ok a) × (f a ≡ ok (responded w₁))
  unfolding fail_response
  or_fail-responded w technical (ok a) f w₁ n h s = (a, refl, h)
  or_fail-responded w technical (err e) f w₁ n h s =
      absurd (not_failure codec.marshal w w₁ _ _ _ n (λ x. omega (arith, x)) (ap answer_of h) s)
    where
      answer_of : Result (Outcome P) → Writer
      answer_of (ok (responded w₂)) = w₂
      answer_of _ = w
  or_fail-responded w technical panic f w₁ n h s = cc

  -- What a response with the status 200 says of the request.
  abbrev pub IsGranted :
      Context P → EnvironmentVariables → PartialResultsEvaluators P → RondConfig → Request → Type 0
  IsGranted ctx env evaluators permission req =
      ((sent : Request) × (env.standalone ≡ true)
        × IsAllowed opa codec lo default_transport ctx env evaluators permission req sent)
      ⊎ IsEmptied opa codec lo default_transport ctx env evaluators permission req

  after_evaluation-responded :
      (ctx : Context P) (env : EnvironmentVariables) (w : Writer) (req : Request)
      (permission : RondConfig) (evaluators : PartialResultsEvaluators P) (evaluated : Evaluated)
      (w₁ : Writer)
      → w.status ≡ none
      → evaluate_request opa codec lo default_transport ctx env w req evaluators permission
        ≡ ok evaluated
      → after_evaluation opa codec lo default_transport ctx env (permission, evaluators) evaluated
        ≡ ok (responded w₁)
      → Succeeds w₁
      → IsGranted ctx env evaluators permission req
  unfolding reverse_proxy_or_response reverse_proxy
  after_evaluation-responded ctx env w req permission evaluators (refused e w₂) w₁ n p h s = inr (
      evaluate_request-refused opa codec lo default_transport ctx env w req n evaluators permission
        e w₂ p (ap (λ x. x.status) (ap writer_of h) ∙ s))
    where
      writer_of : Result (Outcome P) → Writer
      writer_of (ok (responded w₂)) = w₂
      writer_of _ = w
  after_evaluation-responded ctx env w req permission evaluators (passed sent w₂) w₁ n p h s =
      elim (Bool-cases env.standalone) [
        | inl e ↦ inl (
          sent,
          e,
          evaluate_request-passed opa codec lo default_transport ctx env w req evaluators permission
              sent w₂ p,
        )
        | inr e ↦ let k = rw e at h in cc
      ]

-- When `rbacHandler` answers a request with the status 200, on a writer that has sent none yet, its
-- context has an environment, a permission and evaluators, and either the program is standalone and
-- the policy of the permission's request flow has been evaluated for the request without an error,
-- or the partial evaluation of the policy leaves no query to make, and the client asks for JSON.
pub rbac_handler-responded :
    {V P : Type 0} (opa : Opa V P) (codec : Codec) (lo : Lo) (default_transport : RoundTripper)
    (ctx : Context P) (w : Writer) (req : Request) (w₁ : Writer)
    → w.status ≡ none
    → rbac_handler opa codec lo default_transport ctx w req ≡ ok (responded w₁)
    → w₁.status ≡ some 200
    → (env : EnvironmentVariables) × (permission : RondConfig)
      × (evaluators : PartialResultsEvaluators P) × (ctx.env ≡ some env)
      × (ctx.permission ≡ some permission)
      × (ctx.evaluators ≡ some evaluators)
      × IsGranted opa codec lo default_transport ctx env evaluators permission req
unfolding rbac_handler get_x_permission get_partial_results_evaluators
rbac_handler-responded opa codec lo dt ctx w req w₁ n h s =
    let (env, p, h1) = or_fail-responded opa codec lo dt w _ _ _ w₁ n h s in
    let (permission, q, h2) = or_fail-responded opa codec lo dt w _ _ _ w₁ n h1 s in
    let (evaluators, r, h3) = or_fail-responded opa codec lo dt w _ _ _ w₁ n h2 s in
    let (evaluated, e, h4) = bind-ok _ _ _ h3 in
    (
      env,
      permission,
      evaluators,
      get_env-ok ctx.env env p,
      required-ok _ _ permission q,
      required-ok _ _ evaluators r,
      after_evaluation-responded opa codec lo dt ctx env w req permission evaluators evaluated w₁ n
          e h4 s,
    )
