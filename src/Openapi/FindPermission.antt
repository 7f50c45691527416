-- ===== src/Openapi/FindPermission.antt =====
-- `createOasHandler` and `FindPermission` of openapi/openapi_utils.go: a configuration is written
-- into response headers by the handler that the router picks, and read back from the recorder. The
-- router of github.com/uptrace/bunrouter is a parameter, and so is the parser of request URLs.
pub mod Recorded
use rond.Prelude.{
  ℕ, String, Bool, true, false, ◌||◌, List, Option, none, some, Result, ok, panic, GoError,
  Sentinel, error_text, ◌==◌, eqb, if◌then◌else◌, ◌≡◌, Memᴰ, not, elem, [], ◌∷◌,
}
use rond.Prelude.Text.{◌⧺◌, format_bool}
use rond.Http.Header.{Header, get, set}
use rond.Http.Writer.{Writer, fresh}
use rond.Utils.{sanitize_string}
use rond.Openapi.{RondConfig, VerbConfig}
use rond.Openapi.Routes.{Registration}

-- What the router does with a request: it calls a handler, or answers by itself.
pub data Answer : Type 0 where
  handled : Registration → Answer
  answered : ℕ → Answer

-- The router only calls handlers that were registered, for the method that they were registered with.
-- Registering them, by `Handle`, can panic, as on two routes that conflict.
pub record Bunrouter : Type 0 where
  pub handle_all : List Registration → Result (Unit {0})
  pub serve : List Registration → String → String → Answer
  pub parses : String → String → Bool
  pub serve-registered :
      (registrations : List Registration) (method path : String) (r : Registration)
      → serve registrations method path ≡ handled r
      → Memᴰ r registrations × (r.method ≡ method)

abbrev pub allow_key : String
allow_key = "allow"

abbrev pub enabled_key : String
enabled_key = "resourceFilter.rowFilter.enabled"

abbrev pub header_key_key : String
header_key_key = "resourceFilter.rowFilter.headerKey"

abbrev pub policy_key : String
policy_key = "responseFilter.policy"

abbrev pub optimization_key : String
optimization_key = "options.enableResourcePermissionsMapOptimization"

unfoldable pub permission_header : RondConfig → Header → Header
permission_header permission header =
    let h1 = set header allow_key permission.request_flow.policy_name in
    let h2 = set h1 enabled_key (format_bool permission.request_flow.generate_query) in
    let h3 = set h2 header_key_key permission.request_flow.query_options.header_name in
    let h4 = set h3 policy_key permission.response_flow.policy_name in
    set h4 optimization_key
      (format_bool permission.options.enable_resource_permissions_map_optimization)

-- The handler: it reads through the configuration's pointer, which may be nil.
unfoldable pub oas_handler : VerbConfig → Result Header
oas_handler config = elim config.permission_v2 [
  | none ↦ panic
  | some permission ↦ ok (permission_header permission [])
]

-- strconv.ParseBool
unfoldable pub parse_bool : String → Option Bool
parse_bool s =
    if elem s ("1" ∷ "t" ∷ "T" ∷ "true" ∷ "TRUE" ∷ "True" ∷ [])
    then some true
    else if elem s ("0" ∷ "f" ∷ "F" ∷ "false" ∷ "FALSE" ∷ "False" ∷ [])
    then some false
    else none

abbrev pub empty_config : RondConfig
empty_config = record {
  request_flow = record {
    policy_name = "";
    generate_query = false;
    query_options = record { header_name = "" };
  };
  response_flow = record { policy_name = "" };
  options = record { enable_resource_permissions_map_optimization = false };
}

-- The two results of `FindPermission`.
abbrev pub Found : Type 0
Found = RondConfig × Option GoError

abbrev pub not_a_bool : Found
not_a_bool = (empty_config, some (error_text "error while parsing rowFilter.enabled"))

abbrev pub read_flags : Header → Option Bool → Option Bool → Found
read_flags header none optimization = not_a_bool
read_flags header (some enabled) none = not_a_bool
read_flags header (some enabled) (some optimization) = (
  record {
    request_flow = record {
      policy_name = get header allow_key;
      generate_query = enabled;
      query_options = record { header_name = get header header_key_key };
    };
    response_flow = record { policy_name = get header policy_key };
    options = record { enable_resource_permissions_map_optimization = optimization };
  },
  none,
)

unfoldable pub read_permission : Header → Found
read_permission header =
    read_flags header (parse_bool (get header enabled_key))
      (parse_bool (get header optimization_key))

abbrev pub not_found : String → String → Found
not_found method path = (
  empty_config,
  some (record {
    wraps = some Sentinel.not_found_oas_definition;
    message = "not found oas definition: " ⧺ sanitize_string method ⧺ " " ⧺ sanitize_string path;
  }),
)

abbrev pub recorded : Result Header → Result Found
recorded (ok header) = ok (read_permission header)
recorded (Result.err e) = Result.err e
recorded panic = panic

abbrev pub answer_permission : Answer → String → String → Result Found
answer_permission (handled r) method path = recorded (oas_handler r.config)
answer_permission (answered code) method path =
    if eqb code 200 then ok (read_permission []) else ok (not_found method path)

-- A request that does not parse is a nil pointer, and serving it panics.
unfoldable pub find_permission : Bunrouter → List Registration → String → String → Result Found
find_permission router registrations path method =
    if router.parses method path
    then answer_permission (router.serve registrations method path) method path
    else panic
