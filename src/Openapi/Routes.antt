-- ===== src/Openapi/Routes.antt =====
-- `createRoutesMap`, `RoutesMap.contains` and `PrepareOASRouter` of openapi/openapi_utils.go: which
-- handlers are registered on the router, in the order in which the maps are iterated.
pub mod Listed
use rond.Prelude.{String, Bool, true, List, [], ◌∷◌, ◌++◌, Option, none, some, ◌==◌, if◌then◌else◌}
use rond.Prelude.Map.{Map, lookup, insert}
use rond.Prelude.Text.{◌⧺◌, to_upper}
use rond.Openapi.{
  VerbConfig, PathVerbs, OpenApiPaths, OpenApiSpec, all_http_method, oas_supported_http_methods,
}
use rond.Openapi.PathVariables.{clean_wildcard, convert_path_variables_to_colons}

abbrev pub RoutesMap : Type 0
RoutesMap = Map Bool

abbrev pub route_key : String → String → String
route_key path method = path ⧺ "/" ⧺ method

unfoldable pub add_path_routes : String → PathVerbs → RoutesMap → RoutesMap
add_path_routes path [] routes_map = routes_map
add_path_routes path ((method, _) ∷ verbs) routes_map =
    add_path_routes path verbs (insert (route_key path (to_upper method)) true routes_map)

unfoldable pub add_routes : OpenApiPaths → RoutesMap → RoutesMap
add_routes [] routes_map = routes_map
add_routes ((path, verbs) ∷ paths) routes_map =
    add_routes paths (add_path_routes path verbs routes_map)

unfoldable pub create_routes_map : OpenApiSpec → RoutesMap
create_routes_map oas = add_routes oas.paths []

abbrev pub is_there : Option Bool → Bool
is_there none = Bool.false
is_there (some _) = true

unfoldable pub contains : RoutesMap → String → String → Bool
contains routes_map path method = is_there (lookup (route_key path method) routes_map)

-- A handler on the router, given by the configuration that it answers with.
pub record Registration : Type 0 where
  pub method : String
  pub path : String
  pub config : VerbConfig

-- The loop over the supported methods: those that the path does not configure by themselves.
unfoldable pub register_all : RoutesMap → String → VerbConfig → List String → List Registration
register_all routes_map path config [] = []
register_all routes_map path config (method ∷ methods) =
    let rest = register_all routes_map path config methods in
    if contains routes_map path method
    then rest
    else record {
      method = method;
      path = convert_path_variables_to_colons (clean_wildcard path);
      config = config;
    }
      ∷ rest

unfoldable pub register_verb : RoutesMap → String → String → VerbConfig → List Registration
register_verb routes_map path method config =
    if to_upper method == to_upper all_http_method
    then register_all routes_map path config oas_supported_http_methods
    else record {
      method = to_upper method;
      path = convert_path_variables_to_colons (clean_wildcard path);
      config = config;
    }
      ∷ []

unfoldable pub register_verbs : RoutesMap → String → PathVerbs → List Registration
register_verbs routes_map path [] = []
register_verbs routes_map path ((method, config) ∷ verbs) =
    register_verb routes_map path method config ++ register_verbs routes_map path verbs

unfoldable pub register_paths : RoutesMap → OpenApiPaths → List Registration
register_paths routes_map [] = []
register_paths routes_map ((path, verbs) ∷ paths) =
    register_verbs routes_map path verbs ++ register_paths routes_map paths

unfoldable pub prepare_oas_router : OpenApiSpec → List Registration
prepare_oas_router oas = register_paths (create_routes_map oas) oas.paths
