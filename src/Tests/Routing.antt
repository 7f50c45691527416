-- ===== src/Tests/Routing.antt =====
-- Adapting the specification, its routes, and the permissions that are found.
use mathlib.Core.Option
use rond.Prelude.{
  elem, String, Bool, true, false, List, [], ◌∷◌, none, some, ok, panic, ◌≡◌, ◌↔◌, ◌⊎◌, refl, Memᴰ,
  arith, eq_iff, ◌≢◌, All,
}
use rond.Prelude.Map.{lookup, insert}
use rond.Prelude.Text.{to_upper, ends_with, holds}
use rond.Openapi.{XPermission, VerbConfig, OpenApiSpec, RondConfig}
use rond.Openapi.Adapt.{
  adapt_oas_spec, adapt_verb, map_values, verb_config, only_v2, new_rond_config_from_permission_v1,
  adapt_oas_spec_lem, adapt_oas_spec-drops_options,
}
use rond.Openapi.PathVariables.{
  convert_path_variables_to_colons, convert_path_variables_to_brackets, clean_wildcard,
}
use rond.Openapi.PathVariables.Segments.{Segment, literal, variable, IsSegment}
use rond.Openapi.PathVariables.Colons.{colons-with_brackets}
use rond.Openapi.PathVariables.Brackets.{brackets-with_colons}
use rond.Openapi.Routes.{
  Registration, prepare_oas_router, register_paths, register_verbs, register_verb, register_all,
  contains, create_routes_map, add_routes, add_path_routes,
}
use rond.Openapi.Routing.{Origin, prepare_oas_router_iff}
use rond.Openapi.FindPermission.{handled, find_permission}
use rond.Openapi.FindPermission.Recorded.{
  find_permission-handled, find_permission-panic_iff, find_permission_sound,
}
use rond.Http.Request.{Request}
use rond.Http.Writer.{fresh}
use rond.Core.Context.{Context, OpaModuleConfig}
use rond.Core.Evaluators.{ResultSet}
use rond.Core.Middleware.{next, admitted, admit, opa_middleware}
use rond.Core.Middleware.Admitted.{IsAdmitted, opa_middleware-next}
use rond.Tests.Engine.{codec, context, request}
use rond.Tests.Fixtures.{simple_lo, env, rond_config, verb_config_of, plain_router, serve_first}

abbrev pub old_permission : XPermission
old_permission = record {
  allow_permission = "allow_all";
  response_filter_policy = "";
  row_filter = record { header_key = ""; enabled = false };
  options = record { enable_resource_permissions_map_optimization = true };
}

abbrev pub old_verb : VerbConfig
old_verb = record { permission_v1 = some old_permission; permission_v2 = none }

abbrev pub spec : OpenApiSpec
spec = record {
  paths =
      ("/users/", ("get", old_verb) ∷ ("all", verb_config_of (some (rond_config "all_users"))) ∷ [])
      ∷ ("/open", ("post", verb_config_of none) ∷ [])
      ∷ [];
}

adapt_oas_spec_lem_example :
    verb_config (adapt_oas_spec spec) "/users/" "get"
    ≡ Option.map only_v2 (verb_config spec "/users/" "get")
adapt_oas_spec_lem_example = adapt_oas_spec_lem spec "/users/" "get"

abbrev converted : RondConfig
converted = record {
  request_flow = record {
    policy_name = "allow_all";
    generate_query = false;
    query_options = record { header_name = "" };
  };
  response_flow = record { policy_name = "" };
  options = record { enable_resource_permissions_map_optimization = false };
}

adapt_oas_spec-drops_options_example :
    converted.options.enable_resource_permissions_map_optimization ≡ false
unfolding adapt_oas_spec adapt_verb map_values lookup new_rond_config_from_permission_v1
adapt_oas_spec-drops_options_example =
    adapt_oas_spec-drops_options spec "/users/" "get" old_verb (verb_config_of (some converted))
      converted refl refl refl refl

abbrev template : List Segment
template = literal "users" ∷ variable "id" ∷ literal "x{y}" ∷ literal "" ∷ []

id-ne-empty : ◌≢◌ {A = String} "id" ""
id-ne-empty = ground (arith, eq_iff "id" "")

template-IsSegment : All IsSegment template
unfolding holds
template-IsSegment = ((refl, refl), ((refl, id-ne-empty), ((refl, refl), ((refl, refl), tt))))

colons-with_brackets_example :
    convert_path_variables_to_colons "/users/{id}/x{y}/" ≡ "/users/:id/x{y}/"
colons-with_brackets_example = colons-with_brackets template template-IsSegment

brackets-with_colons_example :
    convert_path_variables_to_brackets "/users/:id/x{y}/" ≡ "/users/{id}/x{y}/"
brackets-with_colons_example = brackets-with_colons template template-IsSegment

routing : Unit {0}
unfolding prepare_oas_router register_paths register_verbs register_verb register_all contains
    create_routes_map add_routes add_path_routes to_upper lookup insert
    convert_path_variables_to_colons clean_wildcard ends_with serve_first
routing = tt

abbrev registered : VerbConfig → String → Registration
registered config method = record { method = method; path = "/users/"; config = config }

-- The verb `all` leaves the method alone that the path configures by itself.
handlers :
    prepare_oas_router
      (record { paths = ("/users/", ("get", old_verb) ∷ ("all", verb_config_of none) ∷ []) ∷ [] })
    ≡ registered old_verb "GET"
      ∷ registered (verb_config_of none) "POST"
      ∷ registered (verb_config_of none) "PUT"
      ∷ registered (verb_config_of none) "PATCH"
      ∷ registered (verb_config_of none) "DELETE"
      ∷ registered (verb_config_of none) "HEAD"
      ∷ []
unfolding routing
handlers = refl

prepare_oas_router_iff_example :
    Memᴰ (registered old_verb "GET") (prepare_oas_router spec)
    ↔ Origin spec (registered old_verb "GET")
prepare_oas_router_iff_example = prepare_oas_router_iff spec (registered old_verb "GET")

abbrev all_users : Registration
all_users = registered (verb_config_of (some (rond_config "all_users"))) "PUT"

served_put : serve_first (prepare_oas_router spec) "PUT" "/users/" ≡ handled all_users
unfolding routing
served_put = refl

found_put :
    find_permission plain_router (prepare_oas_router spec) "/users/" "PUT"
    ≡ ok (rond_config "all_users", none)
found_put =
    find_permission-handled plain_router (prepare_oas_router spec) "/users/" "PUT" all_users
      (rond_config "all_users") refl served_put refl

find_permission-handled_example :
    find_permission plain_router (prepare_oas_router spec) "/users/" "PUT"
    ≡ ok (rond_config "all_users", none)
find_permission-handled_example =
    find_permission-handled plain_router (prepare_oas_router spec) "/users/" "PUT" all_users
      (rond_config "all_users") refl served_put refl

find_permission_sound_example :
    (r : Registration) × (serve_first (prepare_oas_router spec) "PUT" "/users/" ≡ handled r)
    × (r.method ≡ "PUT")
    × (r.config.permission_v2 ≡ some (rond_config "all_users"))
    × Origin spec r
find_permission_sound_example =
    find_permission_sound plain_router spec "/users/" "PUT" (rond_config "all_users") found_put

-- A verb with neither x-permission nor x-rond.
find_permission-panic_iff_example :
    (find_permission plain_router (prepare_oas_router spec) "/open" "POST" ≡ panic) ↔ (
      (true ≡ false)
      ⊎ ((r : Registration) × (◌≡◌ {A = Bool} true true)
          × (serve_first (prepare_oas_router spec) "POST" "/open" ≡ handled r)
          × (r.config.permission_v2 ≡ none)))
find_permission-panic_iff_example =
    find_permission-panic_iff plain_router (prepare_oas_router spec) "/open" "POST"

abbrev put : Request
put = record request {
  method = "PUT";
  url_path = "/users/";
  escaped_path = "/users/";
  request_uri = "/users/";
}

abbrev pub module_config : OpaModuleConfig
module_config = record { name = "policies.rego"; content = "" }

abbrev admitted_put : Context ResultSet
admitted_put =
    admitted simple_lo plain_router codec.marshal module_config spec env [] [] none context fresh
      put (rond_config "all_users", none)

passed_put :
    opa_middleware simple_lo plain_router codec.marshal module_config spec env [] [] none context
      fresh put
    ≡ ok (next admitted_put)
unfolding opa_middleware admit elem
passed_put = rw found_put refl

opa_middleware-next_example :
    IsAdmitted simple_lo plain_router codec.marshal module_config spec env [] [] none context fresh
      put admitted_put
opa_middleware-next_example =
    opa_middleware-next simple_lo plain_router codec.marshal module_config spec env [] [] none
      context fresh put admitted_put passed_put
