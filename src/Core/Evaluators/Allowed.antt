-- ===== src/Core/Evaluators/Allowed.antt =====
-- When `Evaluate` accepts.
use rond.Prelude.{
  List, [], ◌∷◌, Option, none, some, ok, ◌≡◌, ◌↔◌, inl, inr, refl, Bool-cases, Option-cases,
  bind-ok,
}
use rond.Prelude.Map.{Map}
use rond.Prelude.Json.{Json, null, bool, int, number, str, arr, obj, Items, no_items, item}
use rond.Mongo.{explained-ok}
use rond.Metrics.{Metrics}
use rond.Core.Context.{Context, RouterInfo, get_router_info, get_metrics, required-ok}
use rond.Core.Evaluators.{
  Opa, OpaEvaluator, ResultSet, granted, single_value, first_element, decide_results, evaluate,
}

-- The results that are accepted, with the value that they give: those of a policy that is true,
-- and those of one that is a list with a first element.
abbrev pub Accepts : ResultSet → Option Json → Type 0
Accepts results none = results ≡ granted
Accepts results (some value) =
    (values : Items) × (bindings : Map Json) × (results
      ≡ record { expressions = arr (item value values) ∷ []; bindings = bindings } ∷ [])

first_element_lem :
    (es : List Json) (value : Json)
    → first_element es ≡ some value
    → (values : Items) × (es ≡ arr (item value values) ∷ [])
first_element_lem [] value h = cc
first_element_lem (e ∷ (f ∷ es)) value h = cc
first_element_lem (null ∷ []) value h = cc
first_element_lem (bool b ∷ []) value h = cc
first_element_lem (int n ∷ []) value h = cc
first_element_lem (number n ∷ []) value h = cc
first_element_lem (str s ∷ []) value h = cc
first_element_lem (obj fs ∷ []) value h = cc
first_element_lem (arr no_items ∷ []) value h = cc
first_element_lem (arr (item v vs) ∷ []) value h = (vs, cc)

single_value_lem :
    (results : ResultSet) (value : Json)
    → single_value results ≡ some value
    → Accepts results (some value)
unfolding single_value
single_value_lem [] value h = cc
single_value_lem (r ∷ (s ∷ rs)) value h = cc
single_value_lem (r ∷ []) value h =
    let (values, e) = first_element_lem r.expressions value h in (values, r.bindings, cc)

single_value_of :
    (results : ResultSet) (value : Json)
    → Accepts results (some value)
    → single_value results ≡ some value
unfolding single_value
single_value_of results value (vs, b, e) = rw e refl

-- Whether the context has what `Evaluate` asks of it.
abbrev pub IsComplete : {P : Type 0} → Context P → Type 0
IsComplete ctx =
    (info : RouterInfo) × (metrics : Metrics) × (ctx.router_info ≡ some info)
    × (ctx.metrics ≡ some metrics)

module _ {V P : Type 0} (opa : Opa V P) where
  decide_results_iff :
      (results : ResultSet) (value : Option Json)
      → (decide_results opa results ≡ ok value) ↔ Accepts results value
  unfolding decide_results
  decide_results_iff results none = elim (Bool-cases (opa.allowed results)) [
    | inl e ↦ rw e ((λ _. (opa.allowed_iff results).0 e), (λ _. refl))
    | inr e ↦ rw e (
      (λ h. elim (Option-cases (single_value results)) [
        | inl n ↦ let k = rw n at h in cc
        | inr (v, p) ↦ let k = rw p at h in cc
      ]),
      (λ g. let k = (opa.allowed_iff results).1 g in cc),
    )
  ]
  decide_results_iff results (some value) = elim (Bool-cases (opa.allowed results)) [
    | inl e ↦ rw e ((λ h. cc), (λ (vs, b, q). let k = (opa.allowed_iff results).0 e in cc))
    | inr e ↦ rw e (
      (λ h. elim (Option-cases (single_value results)) [
        | inl n ↦ let k = rw n at h in cc
        | inr (v, p) ↦ let k = rw p at h in single_value_lem results value cc
      ]),
      (λ q. let k = single_value_of results value q in rw k refl),
    )
  ]

-- `Evaluate` gives a value exactly if the evaluation of the policy succeeds, in a context with
-- router info and metrics, with results that are accepted with that value: it gives nil if they
-- are those of a policy that is true, and the first element of the list that they consist of.
pub evaluate-ok_iff :
    {V P : Type 0} (opa : Opa V P) (evaluator : OpaEvaluator P) (value : Option Json)
    → (evaluate opa evaluator ≡ ok value) ↔ (
        (results : ResultSet) × (evaluator.policy_evaluator.eval ≡ ok results)
        × IsComplete evaluator.context
        × Accepts results value)
unfolding evaluate get_router_info get_metrics
evaluate-ok_iff opa evaluator value = (
  (λ h.
      let (results, p, h1) = bind-ok _ _ value h in
      let (info, q, h2) = bind-ok _ _ value h1 in
      let (metrics, r, h3) = bind-ok _ _ value h2 in
      (
        results,
        explained-ok _ _ results p,
        (info, metrics, required-ok _ _ info q, required-ok _ _ metrics r),
        (decide_results_iff opa results value).0 h3,
      )),
  (λ (results, p, (info, metrics, q, r), a).
      rw (p, q, r) ((decide_results_iff opa results value).1 a)),
)
