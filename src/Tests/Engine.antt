-- ===== src/Tests/Engine.antt =====
-- A policy engine for the tests: every policy gives the results that it was prepared with.
use rond.Prelude.{
  String, Bool, true, false, ◌&&◌, List, [], ◌∷◌, is_empty, none, some, ok, ◌≡◌, refl,
}
use mathlib.Core.Bool.{and-eq-true_iff}
use mathlib.Core.Path.{subst, sym}
use rond.Prelude.Map.{Map}
use rond.Prelude.Json.{Json, null, bool, int, number, str, arr, obj, array}
use rond.Metrics.{setup_metrics}
use rond.Core.Context.{Context}
use rond.Core.Evaluators.{Opa, ResultSet, Evaluator, granted}
use rond.Core.Input.{Codec}
use rond.Mongo.{no_value}
use rond.Http.Request.{Request}
use rond.Openapi.{RondConfig}
use rond.Tests.Fixtures.{env, rond_config}

abbrev is_true : Json → Bool
is_true (bool true) = true
is_true _ = false

abbrev are_true : List Json → Bool
are_true (value ∷ []) = is_true value
are_true _ = false

abbrev pub is_granted : ResultSet → Bool
is_granted (r ∷ []) = are_true r.expressions && is_empty r.bindings
is_granted _ = false

is_true_lem : (value : Json) → is_true value ≡ true → value ≡ bool true
is_true_lem null h = cc
is_true_lem (bool true) h = refl
is_true_lem (bool false) h = cc
is_true_lem (int n) h = cc
is_true_lem (number n) h = cc
is_true_lem (str s) h = cc
is_true_lem (arr a) h = cc
is_true_lem (obj o) h = cc

are_true_lem : (values : List Json) → are_true values ≡ true → values ≡ bool true ∷ []
are_true_lem [] h = cc
are_true_lem (v ∷ (w ∷ vs)) h = cc
are_true_lem (v ∷ []) h = let k = is_true_lem v h in cc

is_empty_lem : (bindings : Map Json) → is_empty bindings ≡ true → bindings ≡ []
is_empty_lem [] h = refl
is_empty_lem (b ∷ bs) h = cc

pub is_granted-granted : (results : ResultSet) → is_granted results ≡ true → results ≡ granted
is_granted-granted [] h = cc
is_granted-granted (r ∷ (s ∷ rs)) h = cc
is_granted-granted (r ∷ []) h =
    let (p, q) = (and-eq-true_iff _ _).0 h in
    let k = are_true_lem r.expressions p in let l = is_empty_lem r.bindings q in cc

abbrev pub evaluator_of : ResultSet → Evaluator
evaluator_of results = record { eval = ok results; partial = ok [] }

abbrev pub engine : Opa String ResultSet
engine = record {
  parse_term = λ s. ok s;
  rego_new = λ o. evaluator_of [];
  partial_result = λ o. ok granted;
  rego_of = λ results v print policy. evaluator_of results;
  allowed = is_granted;
  allowed_iff =
      λ results. (is_granted-granted results, (λ e. subst (λ r. is_granted r ≡ true) (sym e) refl));
}

abbrev pub codec : Codec
codec = record { marshal = λ j. ok "{}"; unmarshal = λ s. ok null; unmarshal_object = λ s. ok [] }

-- The policy `masked` gives a list, and so a new body.
abbrev pub masked : ResultSet
masked = record { expressions = array (str "masked" ∷ []) ∷ []; bindings = [] } ∷ []

abbrev pub plain_config : RondConfig
plain_config = record (rond_config "allow") {
  request_flow = record (rond_config "allow").request_flow { generate_query = false };
  response_flow = record { policy_name = "mask" };
}

abbrev pub context : Context ResultSet
context = record {
  env = some env;
  metrics = some (setup_metrics "rond");
  mongo = no_value;
  permission = some plain_config;
  evaluators = some (("allow", granted) ∷ ("mask", masked) ∷ []);
  opa_module = none;
  router_info =
      some (record { matched_path = "/items"; requested_path = "/items"; method = "GET" });
}

abbrev pub request : Request
request = record {
  method = "GET";
  url_path = "/items";
  escaped_path = "/items";
  request_uri = "/items";
  header = [];
  query = [];
  path_params = [];
  content_length = 0;
  body = ok "";
}
