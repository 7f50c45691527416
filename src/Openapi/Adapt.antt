-- ===== src/Openapi/Adapt.antt =====
-- `adaptOASSpec` of openapi/openapi_utils.go: v1 configurations become v2.
use rond.Prelude.{
  String, false, [], ◌∷◌, Option, none, some, ◌≡◌, refl, ap, arith, ◌==◌, Bool-cases, inl, inr,
}
use mathlib.Core.Path.{fun_ext}
use mathlib.Core.Option
use rond.Prelude.Map.{Map, lookup}
use rond.Openapi.{XPermission, RondConfig, VerbConfig, PathVerbs, OpenApiSpec}

-- The options of v1 are not carried over.
unfoldable pub new_rond_config_from_permission_v1 : XPermission → RondConfig
new_rond_config_from_permission_v1 v1 = record {
  request_flow = record {
    policy_name = v1.allow_permission;
    generate_query = v1.row_filter.enabled;
    query_options = record { header_name = v1.row_filter.header_key };
  };
  response_flow = record { policy_name = v1.response_filter_policy };
  options = record { enable_resource_permissions_map_optimization = false };
}

abbrev or_converted : Option RondConfig → XPermission → Option RondConfig
or_converted none v1 = some (new_rond_config_from_permission_v1 v1)
or_converted (some v2) v1 = some v2

-- One round of the inner loop.
unfoldable pub adapt_verb : VerbConfig → VerbConfig
adapt_verb verb_config = elim verb_config.permission_v1 [
  | none ↦ verb_config
  | some v1 ↦ record {
    permission_v1 = none;
    permission_v2 = or_converted verb_config.permission_v2 v1;
  }
]

-- A loop that assigns to each key of a map.
unfoldable pub map_values {ℓ κ} : {V : Type ℓ} {U : Type κ} → (V → U) → Map V → Map U
map_values f [] = []
map_values f ((k, v) ∷ m) = (k, f v) ∷ map_values f m

unfoldable pub adapt_oas_spec : OpenApiSpec → OpenApiSpec
adapt_oas_spec spec = record { paths = map_values (map_values adapt_verb) spec.paths }

lookup-map_values {ℓ κ} :
    {V : Type ℓ} {U : Type κ} (f : V → U) (k : String) (m : Map V)
    → lookup k (map_values f m) ≡ Option.map f (lookup k m)
unfolding lookup map_values
lookup-map_values f k [] = refl
lookup-map_values f k ((j, v) ∷ m) = elim (Bool-cases (j == k)) [
  | inl e ↦ rw e
  | inr e ↦ rw e (lookup-map_values f k m)
]

-- The configuration of a verb of a path.
abbrev pub verb_of : Option PathVerbs → String → Option VerbConfig
verb_of none verb = none
verb_of (some verbs) verb = lookup verb verbs

abbrev pub verb_config : OpenApiSpec → String → String → Option VerbConfig
verb_config spec path verb = verb_of (lookup path spec.paths) verb

-- What a verb's configuration means: its x-rond, or else its x-permission.
abbrev pub effective : VerbConfig → Option RondConfig
effective vc = elim vc.permission_v2 [
  | some v2 ↦ some v2
  | none ↦ Option.map new_rond_config_from_permission_v1 vc.permission_v1
]

abbrev pub only_v2 : VerbConfig → VerbConfig
only_v2 vc = record { permission_v1 = none; permission_v2 = effective vc }

adapt_verb_lem : (vc : VerbConfig) → adapt_verb vc ≡ only_v2 vc
unfolding adapt_verb
adapt_verb_lem vc = ground arith

adapt_verb_idem : (vc : VerbConfig) → adapt_verb (adapt_verb vc) ≡ adapt_verb vc
unfolding adapt_verb
adapt_verb_idem vc = ground arith

map_values_idem {ℓ} :
    {V : Type ℓ} (f : V → V) (idem : (v : V) → f (f v) ≡ f v) (m : Map V)
    → map_values f (map_values f m) ≡ map_values f m
unfolding map_values
map_values_idem f idem [] = refl
map_values_idem f idem ((k, v) ∷ m) = rw (idem v, map_values_idem f idem m)

verb_of-map :
    (o : Option PathVerbs) (verb : String)
    → verb_of (Option.map (map_values adapt_verb) o) verb ≡ Option.map only_v2 (verb_of o verb)
verb_of-map none verb = refl
verb_of-map (some verbs) verb =
    rw (← fun_ext adapt_verb_lem) (lookup-map_values adapt_verb verb verbs)

-- The adapted specification has the paths and verbs of the given one. Each verb has no
-- x-permission any more, and its x-rond is the one it had, or else the conversion of its
-- x-permission.
pub adapt_oas_spec_lem :
    (spec : OpenApiSpec) (path verb : String)
    → verb_config (adapt_oas_spec spec) path verb ≡ Option.map only_v2 (verb_config spec path verb)
unfolding adapt_oas_spec
adapt_oas_spec_lem spec path verb =
    rw (lookup-map_values (map_values adapt_verb) path spec.paths)
      (verb_of-map (lookup path spec.paths) verb)

-- Adapting a second time changes nothing.
pub adapt_oas_spec_idem :
    (spec : OpenApiSpec) → adapt_oas_spec (adapt_oas_spec spec) ≡ adapt_oas_spec spec
unfolding adapt_oas_spec
adapt_oas_spec_idem spec =
    ap (λ p. record { paths = p })
      (map_values_idem (map_values adapt_verb) (map_values_idem adapt_verb adapt_verb_idem)
        spec.paths)

-- The optimization that an x-permission asks for is lost: where a verb has no x-rond, the adapted
-- one never enables it.
pub adapt_oas_spec-drops_options :
    (spec : OpenApiSpec) (path verb : String) (given adapted : VerbConfig) (v2 : RondConfig)
    → verb_config spec path verb ≡ some given
    → given.permission_v2 ≡ none
    → verb_config (adapt_oas_spec spec) path verb ≡ some adapted
    → adapted.permission_v2 ≡ some v2
    → v2.options.enable_resource_permissions_map_optimization ≡ false
adapt_oas_spec-drops_options spec path verb given adapted v2 at_verb no_v2 at_adapted e =
    let same : some (only_v2 given) ≡ some adapted =
      rw (adapt_oas_spec_lem spec path verb, at_verb) at at_adapted in
    unfold new_rond_config_from_permission_v1 in ground (arith, same)
