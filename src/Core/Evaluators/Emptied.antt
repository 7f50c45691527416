-- ===== src/Core/Evaluators/Emptied.antt =====
-- When an evaluation fails for want of queries.
use rond.Prelude.{
  String, true, [], Option, none, some, Result, ok, err, panic, GoError, Sentinel, ◌>>=◌, ◌≡◌, inl,
  inr, refl, ap, ◌∙◌, Bool-cases, Option-cases,
}
use rond.Prelude.Json.{Json}
use rond.Utils.{Lo}
use rond.Openapi.{RondConfig}
use rond.Mongo.{explained}
use rond.Core.Context.{Context, required, get_router_info, get_metrics}
use rond.Core.Evaluators.{
  Opa, OpaEvaluator, ResultSet, single_value, partially_evaluate, decide_results, evaluate,
  policy_evaluation,
}
use rond.Opatranslator.{process_query}
use rond.Opatranslator.Empty.{process_query-empty_iff}

-- A result whose error, if it is one, wraps no sentinel.
abbrev IsUnwrapped {ℓ} : {A : Type ℓ} → Result A → Type 0
IsUnwrapped (ok a) = Unit
IsUnwrapped (err e) = e.wraps ≡ none
IsUnwrapped panic = Unit

abbrev pub IsEmptyQuery : GoError → Type 0
IsEmptyQuery e = e.wraps ≡ some Sentinel.empty_query

-- An error behind a step that wraps no sentinel is that of the next step.
bind-IsEmptyQuery :
    {A B : Type 0} (m : Result A) (f : A → Result B) (e : GoError)
    → IsUnwrapped m
    → (m >>= f) ≡ err e
    → IsEmptyQuery e
    → (a : A) × (m ≡ ok a) × (f a ≡ err e)
bind-IsEmptyQuery (ok a) f e u h q = (a, refl, h)
bind-IsEmptyQuery (err d) f e u h q = cc
bind-IsEmptyQuery panic f e u h q = cc

explained-IsUnwrapped : {A : Type 0} (text : String) (m : Result A) → IsUnwrapped (explained text m)
explained-IsUnwrapped text (ok a) = tt
explained-IsUnwrapped text (err e) = refl
explained-IsUnwrapped text panic = tt

required-IsUnwrapped :
    {A : Type 0} (text : String) (value : Option A) → IsUnwrapped (required text value)
required-IsUnwrapped text none = refl
required-IsUnwrapped text (some a) = tt

not_empty_query :
    {A : Type 0} (m : Result A) (e : GoError) → IsUnwrapped m → m ≡ err e → IsEmptyQuery e → ⊥
not_empty_query (ok a) e u h q = cc
not_empty_query (err d) e u h q = cc
not_empty_query panic e u h q = cc

module _ {V P : Type 0} (opa : Opa V P) where
  decide_results-IsUnwrapped : (results : ResultSet) → IsUnwrapped (decide_results opa results)
  unfolding decide_results
  decide_results-IsUnwrapped results = elim (Bool-cases (opa.allowed results)) [
    | inl e ↦ rw e tt
    | inr e ↦
        rw e
          (elim (Option-cases (single_value results)) [ inl n ↦ rw n refl | inr (v, n) ↦ rw n tt ])
  ]

  -- An evaluator reads the route and the metrics of its context, and then decides.
  seen-IsEmptyQuery :
      {A : Type 0} (ctx : Context P) (r : Result A) (e : GoError)
      → (get_router_info ctx >>= λ _. get_metrics ctx >>= λ _. r) ≡ err e
      → IsEmptyQuery e
      → r ≡ err e
  unfolding get_router_info get_metrics
  seen-IsEmptyQuery ctx r e h q =
      let (_, _, h₁) =
        bind-IsEmptyQuery (get_router_info ctx) (λ _. get_metrics ctx >>= λ _. r) e
          (required-IsUnwrapped "no router info found" ctx.router_info) h q in
      let (_, _, h₂) =
        bind-IsEmptyQuery (get_metrics ctx) (λ _. r) e
          (required-IsUnwrapped "invalid metrics in context" ctx.metrics) h₁ q in
      h₂

  explained-IsEmptyQuery :
      {A B : Type 0} (text : String) (ctx : Context P) (m : Result A) (f : A → Result B)
      (e : GoError)
      → (explained text m >>= λ a. get_router_info ctx >>= λ _. get_metrics ctx >>= λ _. f a)
        ≡ err e
      → IsEmptyQuery e
      → (a : A) × (m ≡ ok a) × (f a ≡ err e)
  explained-IsEmptyQuery text ctx (ok a) f e h q = (a, refl, seen-IsEmptyQuery ctx (f a) e h q)
  explained-IsEmptyQuery text ctx (err d) f e h q =
      absurd (not_empty_query (explained text (err d)) e refl h q)
  explained-IsEmptyQuery text ctx panic f e h q = cc

  evaluate-unwrapped :
      (evaluator : OpaEvaluator P) (e : GoError)
      → evaluate opa evaluator ≡ err e
      → IsEmptyQuery e
      → ⊥
  unfolding evaluate
  evaluate-unwrapped evaluator e h q =
      let (results, _, h₁) =
        explained-IsEmptyQuery "policy Evaluation has failed when evaluating the query: "
          evaluator.context evaluator.policy_evaluator.eval (decide_results opa) e h q in
      not_empty_query _ e (decide_results-IsUnwrapped results) h₁ q

  partially_evaluate-emptied :
      (lo : Lo) (evaluator : OpaEvaluator P) (e : GoError)
      → partially_evaluate opa lo evaluator ≡ err e
      → IsEmptyQuery e
      → evaluator.policy_evaluator.partial ≡ ok []
  unfolding partially_evaluate
  partially_evaluate-emptied lo evaluator e h q =
      let (queries, left, h₁) =
        explained-IsEmptyQuery "policy Evaluation has failed when partially evaluating the query: "
          evaluator.context evaluator.policy_evaluator.partial (process_query lo) e h q in
      left ∙ ap ok ((process_query-empty_iff lo queries).0 (e, h₁, q))

  -- The error of an empty query comes only of a partial evaluation that leaves no query.
  pub policy_evaluation-emptied :
      (lo : Lo) (evaluator : OpaEvaluator P) (permission : RondConfig) (e : GoError)
      → policy_evaluation opa lo evaluator permission ≡ err e
      → IsEmptyQuery e
      → (permission.request_flow.generate_query ≡ true)
        × (evaluator.policy_evaluator.partial ≡ ok [])
  unfolding policy_evaluation
  policy_evaluation-emptied lo evaluator permission e h q =
      elim (Bool-cases permission.request_flow.generate_query) [
        | inl g ↦ (
          g,
          partially_evaluate-emptied lo evaluator e
              (err_of (partially_evaluate opa lo evaluator) (λ query. (none, query)) (rw g at h)) q,
        )
        | inr g ↦ absurd (
            evaluate-unwrapped evaluator e
              (err_of (evaluate opa evaluator) (λ given. (given, none)) (rw g at h)) q)
      ]
    where
      err_of :
          {A : Type 0} (m : Result A) (f : A → Option Json × Option Json)
          → (m >>= λ a. ok (f a)) ≡ err e
          → m ≡ err e
      err_of (ok a) f k = cc
      err_of (err d) f k = cc
      err_of panic f k = cc
