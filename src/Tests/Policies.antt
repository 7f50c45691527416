-- ===== src/Tests/Policies.antt =====
-- The policies of the specification, prepared.
use rond.Prelude.{[], ◌∷◌, false, ok, ◌≡◌, refl}
use rond.Prelude.Map.{lookup, insert}
use rond.Core.Context.{PartialResultsEvaluators}
use rond.Core.Evaluators.{ResultSet, granted, new_partial_result_evaluator}
use rond.Core.Evaluators.Setup.{
  setup_evaluators, setup_paths, setup_verbs, setup_verb, ensure_evaluator,
  create_partial_evaluator,
}
use rond.Core.Evaluators.Ensured.{Prepares, NamesInPaths}
use rond.Core.Evaluators.Prepared.{setup_evaluators-Prepares}
use rond.Tests.Engine.{engine}
use rond.Tests.Routing.{spec, module_config}
use rond.Tests.Fixtures.{env}

abbrev prepared : PartialResultsEvaluators ResultSet
prepared = ("all_users", granted) ∷ []

spec-is_prepared : setup_evaluators engine false module_config env spec ≡ ok prepared
unfolding setup_evaluators setup_paths setup_verbs setup_verb ensure_evaluator
    create_partial_evaluator new_partial_result_evaluator lookup insert
spec-is_prepared = refl

setup_evaluators-Prepares_example :
    Prepares engine false module_config env (NamesInPaths spec.paths) prepared
setup_evaluators-Prepares_example =
    setup_evaluators-Prepares engine false module_config env spec prepared spec-is_prepared
