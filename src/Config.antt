-- ===== src/Config.antt =====
-- internal/config/env.go.
pub mod ExtraHeaders
pub mod Variables
pub mod Startup
use rond.Prelude.{
  ℕ, String, Bool, true, not, ◌&&◌, List, [], ◌∷◌, ◌++◌, Option, none, some, Result, ok, err, panic,
  error_text, ◌>>=◌, ◌==◌, ◌≡◌, if◌then◌else◌, elem,
}
use rond.Prelude.Text.{split}

pub record EnvironmentVariables : Type 0 where
  pub log_level : String
  pub http_port : String
  pub service_version : String
  pub target_service_host : String
  pub target_service_oas_path : String
  pub opa_modules_directory : String
  pub api_permissions_file_path : String
  pub user_properties_header : String
  pub user_groups_header : String
  pub user_id_header : String
  pub client_type_header : String
  pub bindings_crud_service_url : String
  pub mongo_db_url : String
  pub roles_collection_name : String
  pub bindings_collection_name : String
  pub path_prefix_standalone : String
  pub delay_shutdown_seconds : ℕ
  pub standalone : Bool
  pub additional_headers_to_proxy : String
  pub expose_metrics : Bool

-- `GetEnv`: what the environment middleware has put into the request's context.
unfoldable pub get_env : Option EnvironmentVariables → Result EnvironmentVariables
get_env none = err (error_text "no environment in request context")
get_env (some env) = ok env

pub get_env-ok :
    (o : Option EnvironmentVariables) (env : EnvironmentVariables)
    → get_env o ≡ ok env
    → o ≡ some env
unfolding get_env
get_env-ok none env h = cc
get_env-ok (some e) env h = cc

-- `GetEnvOrDie`, with the outcome of configlib's `GetEnvVariables`; each way to die is a panic.
unfoldable pub get_env_or_die : Result EnvironmentVariables → Result EnvironmentVariables
get_env_or_die (err e) = panic
get_env_or_die panic = panic
get_env_or_die (ok env) =
    if env.target_service_host == "" && not env.standalone
    then panic
    else if env.standalone && (env.bindings_crud_service_url == "")
    then panic
    else ok env

abbrev pub extra_headers_keys : List String
extra_headers_keys =
    "x-request-id" ∷ "x-forwarded-for" ∷ "x-forwarded-proto" ∷ "x-forwarded-host" ∷ []

-- The inner loop, which stops at the first custom header that is the extra one.
unfoldable pub is_duplicate : List String → String → Bool
unfolding elem
is_duplicate custom_headers extra_header_key = elem extra_header_key custom_headers

unfoldable pub append_extra : List String → List String → List String
append_extra custom_headers [] = custom_headers
append_extra custom_headers (extra_header_key ∷ rest) =
    append_extra
      (if is_duplicate custom_headers extra_header_key
        then custom_headers
        else custom_headers ++ extra_header_key ∷ [])
      rest

unfoldable pub get_additional_headers_to_proxy : EnvironmentVariables → List String
get_additional_headers_to_proxy env =
    if env.additional_headers_to_proxy == ""
    then extra_headers_keys
    else append_extra (split b',' env.additional_headers_to_proxy) extra_headers_keys
