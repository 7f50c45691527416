-- ===== src/Service/Router.antt =====
-- `setupRoutes` of service/router.go. The router of github.com/gorilla/mux is a parameter only as
-- far as the registrations below are handed to it, in this order; so are `sort` on the paths and
-- `path.Join`.
pub mod Methods
pub mod AlwaysProxied
use rond.Prelude.{
  String, Bool, true, false, ◌&&◌, List, [], ◌∷◌, ◌++◌, map, Option, none, some, ◌==◌,
  if◌then◌else◌, Memᴰ, ◌↔◌,
}
use rond.Prelude.Map.{Map, lookup}
use rond.Prelude.Text.{◌⧺◌, to_upper, replace_all, holds}
use rond.Utils.{Lo}
use rond.Config.{EnvironmentVariables}
use rond.Openapi.{
  RondConfig, VerbConfig, PathVerbs, OpenApiPaths, OpenApiSpec, all_http_method,
  oas_supported_http_methods,
}
use rond.Openapi.PathVariables.{convert_path_variables_to_brackets}
use rond.Service.Status.{status_routes}

pub data Handler : Type 0 where
  rbac always_proxy : Handler

-- What a route fits: a path template or every path behind a prefix, and, if given, some methods.
pub record Route : Type 0 where
  pub template : String
  pub is_prefix : Bool
  pub methods : Option (List String)
  pub handler : Handler

-- `sort.Sort(sort.Reverse(sort.StringSlice(paths)))`, which keeps the elements, and `path.Join`.
pub record Paths : Type 0 where
  pub sort_reversed : List String → List String
  pub sort_reversed_lem : (xs : List String) (x : String) → Memᴰ x (sort_reversed xs) ↔ Memᴰ x xs
  pub join : String → String → String

abbrev pub metrics_route_path : String
metrics_route_path = "/-/rond/metrics"

unfoldable pub routes_to_not_proxy : Lo → List String
routes_to_not_proxy lo = lo.union status_routes (metrics_route_path ∷ [])

abbrev pub policy_of : Option RondConfig → String
policy_of none = ""
policy_of (some permission) = permission.request_flow.policy_name

abbrev pub get_verb_policy : Option VerbConfig → String
get_verb_policy none = ""
get_verb_policy (some verb) = policy_of verb.permission_v2

-- `documentationPermission`
unfoldable pub documentation_permission : Option PathVerbs → String
documentation_permission none = ""
documentation_permission (some verbs) = get_verb_policy (lookup "get" verbs)

-- The methods of a path: `all` sets them, and any other verb is added to those so far.
unfoldable pub collect_methods : PathVerbs → List String → List String
collect_methods [] methods = methods
collect_methods ((method, _) ∷ verbs) methods = collect_methods verbs (
    if method == all_http_method
    then oas_supported_http_methods
    else methods ++ to_upper method ∷ [])

unfoldable pub methods_map : OpenApiPaths → Map (List String)
methods_map [] = []
methods_map ((path, verbs) ∷ paths) = (path, collect_methods verbs []) ∷ methods_map paths

abbrev pub methods_of : Option (List String) → List String
methods_of none = []
methods_of (some methods) = methods

module _ (lo : Lo) (p : Paths) (oas : OpenApiSpec) (env : EnvironmentVariables) where
  unfoldable pub path_to_register : String → String
  path_to_register path = if env.standalone then env.path_prefix_standalone ⧺ path else path

  abbrev pub route : String → Bool → Option (List String) → Handler → Route
  route template is_prefix methods handler = record {
    template = convert_path_variables_to_brackets template;
    is_prefix = is_prefix;
    methods = methods;
    handler = handler;
  }

  abbrev pub is_documentation : String → Bool
  is_documentation path =
      path == env.target_service_oas_path
      && documentation_permission (lookup env.target_service_oas_path oas.paths) == ""

  -- The body of the loop over the sorted paths.
  unfoldable pub routes_of : String → List Route
  routes_of path =
      let registered = path_to_register path in
      let methods = methods_of (lookup path (methods_map oas.paths)) in
      if lo.contains (routes_to_not_proxy lo) registered
      then []
      else if holds b'*' registered
      then route (replace_all b'*' "" registered) true (some methods) rbac ∷ []
      else if is_documentation path
      then route registered false (some ("GET" ∷ [])) always_proxy ∷ []
      else route registered false (some methods) rbac ∷ []

  unfoldable pub routes_of_all : List String → List Route
  routes_of_all [] = []
  routes_of_all (path ∷ paths) = routes_of path ++ routes_of_all paths

  unfoldable pub documentation_route : List Route
  documentation_route = elim (lookup env.target_service_oas_path oas.paths) [
    | none ↦ route env.target_service_oas_path false none always_proxy ∷ []
    | some _ ↦ []
  ]

  unfoldable pub fallback_route : Route
  fallback_route = record {
    template = if env.standalone then p.join env.path_prefix_standalone "/" ⧺ "/" else "/";
    is_prefix = true;
    methods = none;
    handler = rbac;
  }

  -- `setupRoutes`
  unfoldable pub setup_routes : List Route
  setup_routes =
      routes_of_all (p.sort_reversed (map (λ (path, _). path) oas.paths))
      ++ documentation_route
      ++ fallback_route ∷ []
