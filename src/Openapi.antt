-- ===== src/Openapi.antt =====
-- openapi/openapi_utils.go: the configuration types, their adaptation, and the routes.
pub mod PathVariables
pub mod Adapt
pub mod Load
pub mod Routes
pub mod Routing
pub mod FindPermission
use rond.Prelude.{String, Bool, List, [], ◌∷◌, Option}
use rond.Prelude.Map.{Map}

pub record PermissionOptions : Type 0 where
  pub enable_resource_permissions_map_optimization : Bool

pub record RowFilterConfiguration : Type 0 where
  pub header_key : String
  pub enabled : Bool

-- Config v1, with `ResourceFilter` and `ResponseFilterConfiguration` as their single fields.
pub record XPermission : Type 0 where
  pub allow_permission : String
  pub response_filter_policy : String
  pub row_filter : RowFilterConfiguration
  pub options : PermissionOptions

-- Config v2
pub record QueryOptions : Type 0 where
  pub header_name : String

pub record RequestFlow : Type 0 where
  pub policy_name : String
  pub generate_query : Bool
  pub query_options : QueryOptions

pub record ResponseFlow : Type 0 where
  pub policy_name : String

pub record RondConfig : Type 0 where
  pub request_flow : RequestFlow
  pub response_flow : ResponseFlow
  pub options : PermissionOptions

pub record VerbConfig : Type 0 where
  pub permission_v1 : Option XPermission
  pub permission_v2 : Option RondConfig

abbrev pub PathVerbs : Type 0
PathVerbs = Map VerbConfig

abbrev pub OpenApiPaths : Type 0
OpenApiPaths = Map PathVerbs

pub record OpenApiSpec : Type 0 where
  pub paths : OpenApiPaths

abbrev pub all_http_method : String
all_http_method = "all"

abbrev pub oas_supported_http_methods : List String
oas_supported_http_methods = "GET" ∷ "POST" ∷ "PUT" ∷ "PATCH" ∷ "DELETE" ∷ "HEAD" ∷ []
