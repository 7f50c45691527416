-- ===== src/Core/Evaluators/Prepared.antt =====
-- What `SetupEvaluators` prepares.
use mathlib.Core.Path.{subst}
use rond.Prelude.{
  String, Bool, true, false, [], ◌∷◌, some, ok, ◌==◌, ◌≡◌, ◌⊎◌, inl, inr, refl, sym, ap, ◌∙◌,
  Bool-cases, Option-cases, bind-ok, ok-injective, Memᴰ, if◌then◌else◌, ◌>>=◌,
}
use rond.Prelude.Map.{lookup-nil}
use rond.Config.{EnvironmentVariables}
use rond.Openapi.{VerbConfig, RondConfig, OpenApiSpec, PathVerbs, OpenApiPaths}
use rond.Core.Context.{OpaModuleConfig, PartialResultsEvaluators}
use rond.Core.Evaluators.{Opa}
use rond.Core.Evaluators.Ensured.{
  Names, NamesInVerb, NamesInVerbs, NamesInPaths, Prepares, Prepares-iff, ensure_evaluator-Prepares,
}
use rond.Core.Evaluators.Setup.{
  ensure_evaluator, setup_verb, setup_verbs, setup_paths, setup_evaluators,
}

module _ {V P : Type 0} (opa : Opa V P) (has_mongo : Bool) (config : OpaModuleConfig)
    (env : EnvironmentVariables) where
  -- The policies known with those of a permission that names one for requests.
  abbrev WithPermission : (String → Type 0) → RondConfig → String → Type 0
  WithPermission N permission policy = N policy ⊎ Names permission policy

  permission-Prepares :
      {N : String → Type 0} (permission : RondConfig) (old after : PartialResultsEvaluators P)
      → ((permission.request_flow.policy_name == "") ≡ false)
      → Prepares opa has_mongo config env N old
      → (ensure_evaluator opa has_mongo config env permission.request_flow.policy_name old
          >>= λ allowing.
              if permission.response_flow.policy_name == ""
              then ok allowing
              else ensure_evaluator opa has_mongo config env permission.response_flow.policy_name
                  allowing)
        ≡ ok after
      → Prepares opa has_mongo config env (WithPermission N permission) after
  permission-Prepares {N} permission old after named prepares h =
      let (allowing, p, h1) =
        bind-ok (ensure_evaluator opa has_mongo config env permission.request_flow.policy_name old)
          (λ m.
            if permission.response_flow.policy_name == ""
            then ok m
            else ensure_evaluator opa has_mongo config env permission.response_flow.policy_name m)
          after h in
      let first =
        ensure_evaluator-Prepares opa has_mongo config env permission.request_flow.policy_name old
          allowing prepares p in
      elim (Bool-cases (permission.response_flow.policy_name == "")) [
        | inl e ↦
            let q = ok-injective (rw e at h1) in
            Prepares-iff opa has_mongo config env after
              (λ policy. (
                (λ n. elim n [ inl m ↦ inl m | inr r ↦ inr (named, inl r) ]),
                (λ n. elim n [
                  | inl m ↦ inl m
                  | inr (_, inl r) ↦ inr r
                  | inr (_, inr (_, f)) ↦ absurd (false_ne e f)
                ]),
              ))
              (subst
                (Prepares opa has_mongo config env
                  (λ policy. N policy ⊎ (policy ≡ permission.request_flow.policy_name)))
                q first)
        | inr e ↦
            Prepares-iff opa has_mongo config env after
              (λ policy. (
                (λ n. elim n [
                  | inl (inl m) ↦ inl m
                  | inl (inr r) ↦ inr (named, inl r)
                  | inr r ↦ inr (named, inr (r, e))
                ]),
                (λ n. elim n [
                  | inl m ↦ inl (inl m)
                  | inr (_, inl r) ↦ inl (inr r)
                  | inr (_, inr (r, _)) ↦ inr r
                ]),
              ))
              (ensure_evaluator-Prepares opa has_mongo config env
                permission.response_flow.policy_name allowing after first (rw e at h1))
      ]
    where
      false_ne : {b : Bool} → b ≡ true → b ≡ false → ⊥
      false_ne t f = cc

  setup_verb-Prepares :
      {N : String → Type 0} (verb : VerbConfig) (old after : PartialResultsEvaluators P)
      → Prepares opa has_mongo config env N old
      → setup_verb opa has_mongo config env verb old ≡ ok after
      → Prepares opa has_mongo config env (λ policy. N policy ⊎ NamesInVerb verb policy) after
  unfolding setup_verb
  setup_verb-Prepares {N} verb old after prepares h = elim (Option-cases verb.permission_v2) [
    | inl absent ↦
        let q = ok-injective (rw (absent, setup_verb) at h) in
        Prepares-iff opa has_mongo config env after
          (λ policy.
            (inl, (λ n. elim n [ inl m ↦ m | inr (c, p, _) ↦ let k = sym absent ∙ p in cc ])))
          (subst (Prepares opa has_mongo config env N) q prepares)
    | inr (permission, present) ↦
        let h1 = rw (present, setup_verb) at h in
        Prepares-iff opa has_mongo config env after
          (λ policy. (
            (λ n. elim n [ inl m ↦ inl m | inr r ↦ inr (permission, present, r) ]),
            (λ n. elim n [
              | inl m ↦ inl m
              | inr (c, p, r) ↦ inr (subst (λ d. Names d policy) (same (sym p ∙ present)) r)
            ]),
          ))
          (with_permission permission h1)
  ]
    where
      same : {c d : RondConfig} → some c ≡ some d → c ≡ d
      same q = cc

      with_permission :
          (permission : RondConfig)
          → (if permission.request_flow.policy_name == ""
              then ok old
              else (ensure_evaluator opa has_mongo config env permission.request_flow.policy_name
                    old
                  >>= λ allowing.
                      if permission.response_flow.policy_name == ""
                      then ok allowing
                      else ensure_evaluator opa has_mongo config env
                          permission.response_flow.policy_name allowing))
            ≡ ok after
          → Prepares opa has_mongo config env (WithPermission N permission) after
      with_permission permission k = elim (Bool-cases (permission.request_flow.policy_name == "")) [
        | inl e ↦
            Prepares-iff opa has_mongo config env after
              (λ policy. (inl, (λ n. elim n [ inl m ↦ m | inr (f, _) ↦ let x = sym e ∙ f in cc ])))
              (subst (Prepares opa has_mongo config env N) (ok-injective (rw e at k)) prepares)
        | inr e ↦ permission-Prepares permission old after e prepares (rw e at k)
      ]

  setup_verbs-Prepares :
      (verbs : PathVerbs) {N : String → Type 0} (old after : PartialResultsEvaluators P)
      → Prepares opa has_mongo config env N old
      → setup_verbs opa has_mongo config env verbs old ≡ ok after
      → Prepares opa has_mongo config env (λ policy. N policy ⊎ NamesInVerbs verbs policy) after
  unfolding setup_verbs
  setup_verbs-Prepares [] {N} old after prepares h =
      Prepares-iff opa has_mongo config env after
        (λ policy. (inl, (λ n. elim n [ inl m ↦ m | inr (_, _, at, _) ↦ elim at [ ] ])))
        (subst (Prepares opa has_mongo config env N) (ok-injective h) prepares)
  setup_verbs-Prepares ((method, verb) ∷ verbs) {N} old after prepares h =
      let (between, p, h1) =
        bind-ok (setup_verb opa has_mongo config env verb old)
          (setup_verbs opa has_mongo config env verbs) after h in
      Prepares-iff opa has_mongo config env after
        (λ policy. (
          (λ n. elim n [
            | inl (inl m) ↦ inl m
            | inl (inr r) ↦ inr (method, verb, Memᴰ.head refl, r)
            | inr (k, v, at, r) ↦ inr (k, v, Memᴰ.tail at, r)
          ]),
          (λ n. elim n [
            | inl m ↦ inl (inl m)
            | inr (k, v, Memᴰ.head e, r) ↦
                inl (inr (subst (λ d. NamesInVerb d policy) (ap (λ x. x.1) e) r))
            | inr (k, v, Memᴰ.tail at, r) ↦ inr (k, v, at, r)
          ]),
        ))
        (setup_verbs-Prepares verbs {N = λ policy. N policy ⊎ NamesInVerb verb policy} between after
          (setup_verb-Prepares verb old between prepares p) h1)

  setup_paths-Prepares :
      (paths : OpenApiPaths) {N : String → Type 0} (old after : PartialResultsEvaluators P)
      → Prepares opa has_mongo config env N old
      → setup_paths opa has_mongo config env paths old ≡ ok after
      → Prepares opa has_mongo config env (λ policy. N policy ⊎ NamesInPaths paths policy) after
  unfolding setup_paths
  setup_paths-Prepares [] {N} old after prepares h =
      Prepares-iff opa has_mongo config env after
        (λ policy. (inl, (λ n. elim n [ inl m ↦ m | inr (_, _, at, _) ↦ elim at [ ] ])))
        (subst (Prepares opa has_mongo config env N) (ok-injective h) prepares)
  setup_paths-Prepares ((path, verbs) ∷ paths) {N} old after prepares h =
      let (between, p, h1) =
        bind-ok (setup_verbs opa has_mongo config env verbs old)
          (setup_paths opa has_mongo config env paths) after h in
      Prepares-iff opa has_mongo config env after
        (λ policy. (
          (λ n. elim n [
            | inl (inl m) ↦ inl m
            | inl (inr r) ↦ inr (path, verbs, Memᴰ.head refl, r)
            | inr (k, v, at, r) ↦ inr (k, v, Memᴰ.tail at, r)
          ]),
          (λ n. elim n [
            | inl m ↦ inl (inl m)
            | inr (k, v, Memᴰ.head e, r) ↦
                inl (inr (subst (λ d. NamesInVerbs d policy) (ap (λ x. x.1) e) r))
            | inr (k, v, Memᴰ.tail at, r) ↦ inr (k, v, at, r)
          ]),
        ))
        (setup_paths-Prepares paths {N = λ policy. N policy ⊎ NamesInVerbs verbs policy} between
          after (setup_verbs-Prepares verbs old between prepares p) h1)

-- When SetupEvaluators succeeds, there is an evaluator for each policy that the specification names,
-- for requests, or for responses beside one for requests, and each evaluator is the partial result
-- that the engine gives for a policy named.
pub setup_evaluators-Prepares :
    {V P : Type 0} (opa : Opa V P) (has_mongo : Bool) (config : OpaModuleConfig)
    (env : EnvironmentVariables) (oas : OpenApiSpec) (evaluators : PartialResultsEvaluators P)
    → setup_evaluators opa has_mongo config env oas ≡ ok evaluators
    → Prepares opa has_mongo config env (NamesInPaths oas.paths) evaluators
unfolding setup_evaluators
setup_evaluators-Prepares opa has_mongo config env oas evaluators h =
    Prepares-iff opa has_mongo config env {N = λ policy. ⊥ ⊎ NamesInPaths oas.paths policy}
      evaluators (λ policy. ((λ n. elim n [ inl m ↦ absurd m | inr r ↦ r ]), inr))
      (setup_paths-Prepares opa has_mongo config env oas.paths {N = λ policy. ⊥} [] evaluators
        ((λ policy n. absurd n), (λ policy e h. let k = sym (lookup-nil policy) ∙ h in cc)) h)
