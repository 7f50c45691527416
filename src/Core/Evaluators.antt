-- ===== src/Core/Evaluators.antt =====
-- core/opaevaluator.go: the evaluators of policies. The engine of github.com/open-policy-agent/opa
-- is a parameter.
pub mod Emptied
pub mod Allowed
pub mod Setup
pub mod Ensured
pub mod Prepared
use rond.Prelude.{
  String, Bool, true, false, List, [], ◌∷◌, ◌++◌, Option, none, some, Result, ok, err, panic,
  GoError, error_text, ◌==◌, if◌then◌else◌, ◌>>=◌, ◌≡◌, ◌↔◌,
}
use rond.Prelude.Map.{Map, lookup}
use rond.Prelude.Text.{◌⧺◌, replace_all}
use rond.Prelude.Json.{Json, bool, arr, Items, no_items, item}
use rond.Utils.{Lo}
use rond.Config.{EnvironmentVariables}
use rond.Openapi.{RondConfig}
use rond.Mongo.{explained}
use rond.Opatranslator.{PartialQueries, process_query}
use rond.Core.Context.{
  OpaModuleConfig, PartialResultsEvaluators, Context, get_router_info, get_metrics,
  get_opa_module_config,
}

-- rego.Result: the values of its expressions, and its bindings.
pub record PolicyResult : Type 0 where
  pub expressions : List Json
  pub bindings : Map Json

abbrev pub ResultSet : Type 0
ResultSet = List PolicyResult

abbrev pub granted : ResultSet
granted = record { expressions = bool true ∷ []; bindings = [] } ∷ []

-- `Evaluator`
pub record Evaluator : Type 0 where
  pub eval : Result ResultSet
  pub partial : Result PartialQueries

-- The options of a query, `V` being the values that the engine parses.
pub record RegoOptions (V : Type 0) : Type 0 where
  pub query : String
  pub module_name : String
  pub module_content : String
  pub parsed_input : Option V
  pub unknowns : List String
  pub print_statements : Bool
  pub print_policy : String
  pub mongo_builtins : Bool

-- The engine: parsing a term, `rego.New`, `PartialResult` and its `Rego`, and `Allowed`, which
-- tells whether there is one result, of one expression that is true, and without bindings.
pub record Opa (V P : Type 0) : Type 0 where
  pub parse_term : String → Result V
  pub rego_new : RegoOptions V → Evaluator
  pub partial_result : RegoOptions V → Result P
  pub rego_of : P → V → Bool → String → Evaluator
  pub allowed : ResultSet → Bool
  pub allowed_iff : (results : ResultSet) → (allowed results ≡ true) ↔ (results ≡ granted)

abbrev pub unknowns : List String
unknowns = "data.resources" ∷ []

abbrev pub is_trace : EnvironmentVariables → Bool
is_trace env = env.log_level == "trace"

unfoldable pub query_string : String → String
query_string policy = "data.policies." ⧺ replace_all b'.' "_" policy

pub record OpaEvaluator (P : Type 0) : Type 0 where
  pub policy_evaluator : Evaluator
  pub policy_name : String
  pub context : Context P

-- The first element of the list that is the single value, and that of the single result: what
-- `Evaluate` gives where the policy is not plainly true.
abbrev pub list_element : Json → Option Json
list_element (arr (item value values)) = some value
list_element _ = none

abbrev pub first_element : List Json → Option Json
first_element (value ∷ []) = list_element value
first_element _ = none

unfoldable pub single_value : ResultSet → Option Json
single_value (r ∷ []) = first_element r.expressions
single_value _ = none

module _ {V P : Type 0} (opa : Opa V P) where
  unfoldable pub new_opa_evaluator :
      Context P → String → OpaModuleConfig → String → EnvironmentVariables → Result (OpaEvaluator P)
  new_opa_evaluator ctx policy config input env =
      explained "failed input parse: " (opa.parse_term input) >>= λ term. ok (record {
        policy_evaluator = opa.rego_new (record {
          query = query_string policy;
          module_name = config.name;
          module_content = config.content;
          parsed_input = some term;
          unknowns = unknowns;
          print_statements = is_trace env;
          print_policy = policy;
          mongo_builtins = true;
        });
        policy_name = policy;
        context = ctx;
      })

  unfoldable pub create_query_evaluator :
      Context P → EnvironmentVariables → String → String → Result (OpaEvaluator P)
  create_query_evaluator ctx env policy input = elim (get_opa_module_config ctx) [
    | ok config ↦ new_opa_evaluator ctx policy config input env
    | err e ↦ err (error_text "no OPA module configuration found in context")
    | panic ↦ panic
  ]

  unfoldable pub new_partial_result_evaluator :
      String → OpaModuleConfig → Bool → EnvironmentVariables → Result P
  new_partial_result_evaluator policy config has_mongo env = opa.partial_result (record {
    query = query_string policy;
    module_name = config.name;
    module_content = config.content;
    parsed_input = none;
    unknowns = unknowns;
    print_statements = is_trace env;
    print_policy = policy;
    mongo_builtins = has_mongo;
  })

  unfoldable pub get_evaluator_from_policy :
      PartialResultsEvaluators P
      → Context P
      → String
      → String
      → EnvironmentVariables
      → Result (OpaEvaluator P)
  get_evaluator_from_policy evaluators ctx policy input env = elim (lookup policy evaluators) [
    | none ↦ err (error_text "policy evaluator not found")
    | some prepared ↦ explained "failed input parse: " (opa.parse_term input) >>= λ term.
        ok (record {
          policy_evaluator = opa.rego_of prepared term (is_trace env) policy;
          policy_name = policy;
          context = ctx;
        })
  ]

  -- `partiallyEvaluate`: `ok none` is a nil query without an error.
  unfoldable pub partially_evaluate : Lo → OpaEvaluator P → Result (Option Json)
  partially_evaluate lo evaluator =
      explained "policy Evaluation has failed when partially evaluating the query: "
        evaluator.policy_evaluator.partial
      >>= λ queries. get_router_info evaluator.context >>= λ _.
          get_metrics evaluator.context >>= λ _. process_query lo queries

  -- The last part of `Evaluate`: `none` is a nil value.
  unfoldable pub decide_results : ResultSet → Result (Option Json)
  decide_results results = if opa.allowed results then ok none else elim (single_value results) [
    | some value ↦ ok (some value)
    | none ↦ err (error_text "RBAC policy evaluation failed, user is not allowed")
  ]

  unfoldable pub evaluate : OpaEvaluator P → Result (Option Json)
  evaluate evaluator =
      explained "policy Evaluation has failed when evaluating the query: "
        evaluator.policy_evaluator.eval
      >>= λ results. get_router_info evaluator.context >>= λ _.
          get_metrics evaluator.context >>= λ _. decide_results results

  -- `PolicyEvaluation`: the data of the evaluation and the query.
  unfoldable pub policy_evaluation :
      Lo → OpaEvaluator P → RondConfig → Result (Option Json × Option Json)
  policy_evaluation lo evaluator permission =
      if permission.request_flow.generate_query
      then (partially_evaluate lo evaluator >>= λ query. ok (none, query))
      else (evaluate evaluator >>= λ data_from_evaluation. ok (data_from_evaluation, none))
