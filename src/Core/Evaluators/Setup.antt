-- ===== src/Core/Evaluators/Setup.antt =====
-- `SetupEvaluators`: one prepared evaluator for each policy that the specification names.
use rond.Prelude.{String, Bool, [], ◌∷◌, none, some, Result, ok, ◌==◌, if◌then◌else◌, ◌>>=◌}
use rond.Prelude.Map.{lookup, insert}
use rond.Config.{EnvironmentVariables}
use rond.Openapi.{VerbConfig, OpenApiSpec, PathVerbs, OpenApiPaths}
use rond.Mongo.{explained}
use rond.Core.Context.{OpaModuleConfig, PartialResultsEvaluators}
use rond.Core.Evaluators.{Opa, new_partial_result_evaluator}

module _ {V P : Type 0} (opa : Opa V P) (has_mongo : Bool) (config : OpaModuleConfig)
    (env : EnvironmentVariables) where
  unfoldable pub create_partial_evaluator : String → Result P
  create_partial_evaluator policy = new_partial_result_evaluator opa policy config has_mongo env

  -- A policy that has no evaluator yet gets one.
  unfoldable pub ensure_evaluator :
      String → PartialResultsEvaluators P → Result (PartialResultsEvaluators P)
  ensure_evaluator policy evaluators = elim (lookup policy evaluators) [
    | some _ ↦ ok evaluators
    | none ↦
        explained "error during evaluator creation: " (create_partial_evaluator policy)
        >>= λ evaluator. ok (insert policy evaluator evaluators)
  ]

  -- The body of the loops.
  unfoldable pub setup_verb :
      VerbConfig → PartialResultsEvaluators P → Result (PartialResultsEvaluators P)
  setup_verb verb_config evaluators = elim verb_config.permission_v2 [
    | none ↦ ok evaluators
    | some permission ↦
        if permission.request_flow.policy_name == ""
        then ok evaluators
        else (ensure_evaluator permission.request_flow.policy_name evaluators >>= λ allowing.
            if permission.response_flow.policy_name == ""
            then ok allowing
            else ensure_evaluator permission.response_flow.policy_name allowing)
  ]

  unfoldable pub setup_verbs :
      PathVerbs → PartialResultsEvaluators P → Result (PartialResultsEvaluators P)
  setup_verbs [] evaluators = ok evaluators
  setup_verbs ((_, verb_config) ∷ verbs) evaluators =
      setup_verb verb_config evaluators >>= setup_verbs verbs

  unfoldable pub setup_paths :
      OpenApiPaths → PartialResultsEvaluators P → Result (PartialResultsEvaluators P)
  setup_paths [] evaluators = ok evaluators
  setup_paths ((_, verbs) ∷ paths) evaluators = setup_verbs verbs evaluators >>= setup_paths paths

  unfoldable pub setup_evaluators : OpenApiSpec → Result (PartialResultsEvaluators P)
  setup_evaluators oas = setup_paths oas.paths []
