-- ===== src/Core/Evaluators/Ensured.antt =====
-- The policies that a specification names, and one more evaluator among those prepared.
use mathlib.Core.Path.{subst}
use rond.Prelude.{
  String, Bool, false, some, ok, ◌==◌, ◌≡◌, ◌↔◌, ◌⊎◌, inl, inr, sym, Bool-cases, Option-cases,
  bind-ok, ok-injective, some-injective, eq_iff, Memᴰ, refl, ap, ◌∙◌,
}
use rond.Prelude.Map.{lookup, insert, lookup-insert}
use rond.Config.{EnvironmentVariables}
use rond.Openapi.{VerbConfig, RondConfig, PathVerbs, OpenApiPaths}
use rond.Mongo.{explained, explained-ok}
use rond.Core.Context.{OpaModuleConfig, PartialResultsEvaluators}
use rond.Core.Evaluators.{Opa}
use rond.Core.Evaluators.Setup.{create_partial_evaluator, ensure_evaluator}

-- The policies of a permission. One without a policy for requests counts as no permission.
abbrev pub Names : RondConfig → String → Type 0
Names permission policy =
    ((permission.request_flow.policy_name == "") ≡ false)
    × ((policy ≡ permission.request_flow.policy_name)
        ⊎ ((policy ≡ permission.response_flow.policy_name)
            × ((permission.response_flow.policy_name == "") ≡ false)))

abbrev pub NamesInVerb : VerbConfig → String → Type 0
NamesInVerb verb policy =
    (permission : RondConfig) × (verb.permission_v2 ≡ some permission) × Names permission policy

abbrev pub NamesInVerbs : PathVerbs → String → Type 0
NamesInVerbs verbs policy =
    (method : String) × (verb : VerbConfig) × Memᴰ (method, verb) verbs × NamesInVerb verb policy

abbrev pub NamesInPaths : OpenApiPaths → String → Type 0
NamesInPaths paths policy =
    (path : String) × (verbs : PathVerbs) × Memᴰ (path, verbs) paths × NamesInVerbs verbs policy

module _ {V P : Type 0} (opa : Opa V P) (has_mongo : Bool) (config : OpaModuleConfig)
    (env : EnvironmentVariables) where
  -- Each policy named has an evaluator, and every evaluator is the one created for a policy named.
  abbrev pub Prepares : (String → Type 0) → PartialResultsEvaluators P → Type 0
  Prepares IsNamed evaluators =
      ((policy : String) → IsNamed policy → (e : P) × (lookup policy evaluators ≡ some e))
      × ((policy : String) (e : P)
          → lookup policy evaluators ≡ some e
          → IsNamed policy × (create_partial_evaluator opa has_mongo config env policy ≡ ok e))

  pub Prepares-iff :
      {N M : String → Type 0} (evaluators : PartialResultsEvaluators P)
      → ((policy : String) → N policy ↔ M policy)
      → Prepares N evaluators
      → Prepares M evaluators
  Prepares-iff evaluators same (has, is_made) = (
    (λ policy m. has policy ((same policy).1 m)),
    (λ policy e h. let (n, c) = is_made policy e h in ((same policy).0 n, c)),
  )

  Prepares-insert :
      {N : String → Type 0} (new : String) (made : P) (old : PartialResultsEvaluators P)
      → create_partial_evaluator opa has_mongo config env new ≡ ok made
      → Prepares N old
      → Prepares (λ policy. N policy ⊎ (policy ≡ new)) (insert new made old)
  Prepares-insert {N} new made old created (has, is_made) = (has_after, is_made_after)
    where
      has_after :
          (policy : String)
          → N policy ⊎ (policy ≡ new)
          → (e : P) × (lookup policy (insert new made old) ≡ some e)
      has_after policy n =
          rw (lookup-insert new policy made old) (elim (Bool-cases (new == policy)) [
            | inl e ↦ rw e (made, refl)
            | inr e ↦ rw e (elim n [
              | inl m ↦ has policy m
              | inr q ↦ let k = (eq_iff new policy).1 (sym q) in cc
            ])
          ])

      is_made_after :
          (policy : String) (e : P)
          → lookup policy (insert new made old) ≡ some e
          → (N policy ⊎ (policy ≡ new))
            × (create_partial_evaluator opa has_mongo config env policy ≡ ok e)
      is_made_after policy e h =
          let found = rw (lookup-insert new policy made old) at h in
          elim (Bool-cases (new == policy)) [
            | inl f ↦
                let q = (eq_iff new policy).0 f in
                (inr (sym q), rw (← q) (created ∙ ap ok (some-injective (rw f at found))))
            | inr f ↦ let (n, c) = is_made policy e (rw f at found) in (inl n, c)
          ]

  Prepares-known :
      {N : String → Type 0} (new : String) (known : P) (old : PartialResultsEvaluators P)
      → lookup new old ≡ some known
      → Prepares N old
      → Prepares (λ policy. N policy ⊎ (policy ≡ new)) old
  Prepares-known {N} new known old present (has, is_made) = (
    (λ policy n. elim n [ inl m ↦ has policy m | inr q ↦ (known, rw q present) ]),
    (λ policy e h. let (n, c) = is_made policy e h in (inl n, c)),
  )

  pub ensure_evaluator-Prepares :
      {N : String → Type 0} (new : String) (old after : PartialResultsEvaluators P)
      → Prepares N old
      → ensure_evaluator opa has_mongo config env new old ≡ ok after
      → Prepares (λ policy. N policy ⊎ (policy ≡ new)) after
  unfolding ensure_evaluator
  ensure_evaluator-Prepares {N} new old after prepares h = elim (Option-cases (lookup new old)) [
    | inl absent ↦
        let (made, p, h1) =
          bind-ok
            (explained "error during evaluator creation: "
              (create_partial_evaluator opa has_mongo config env new))
            (λ e. ok (insert new e old)) after (rw (absent, ensure_evaluator) at h) in
        moved h1 (Prepares-insert new made old (explained-ok _ _ made p) prepares)
    | inr (known, present) ↦
        moved (rw (present, ensure_evaluator) at h) (Prepares-known new known old present prepares)
  ]
    where
      moved :
          {m : PartialResultsEvaluators P}
          → ok m ≡ ok after
          → Prepares (λ policy. N policy ⊎ (policy ≡ new)) m
          → Prepares (λ policy. N policy ⊎ (policy ≡ new)) after
      moved q r =
          let e = ok-injective q in subst (Prepares (λ policy. N policy ⊎ (policy ≡ new))) e r
