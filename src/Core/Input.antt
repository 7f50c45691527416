-- ===== src/Core/Input.antt =====
-- core/opaevaluator.go: `CreateRegoQueryInput`, and the text that it makes of `Input`.
use rond.Prelude.{
  String, Bool, ◌&&◌, ◌||◌, List, [], ◌∷◌, ◌++◌, Option, none, some, Result, ok, map, is_empty,
  ◌==◌, if◌then◌else◌, ◌>>=◌, ltb,
}
use rond.Prelude.Map.{Map}
use rond.Prelude.Text.{split}
use rond.Prelude.Json.{Json, null, str, bool, object, array, strings, Marshal}
use rond.Http.Header.{Header, get}
use rond.Http.Request.{Request}
use rond.Types.{Binding, Role, User}
use rond.Types.Encoded.{binding_json}
use rond.Utils.{has_application_json_content_type}
use rond.Config.{EnvironmentVariables}
use rond.Mongo.{explained}
use rond.Core.PermissionsMap.{PermissionsOnResourceMap, build_optimized_resource_permissions_map}

-- `encoding/json`: `json.Marshal`, and `json.Unmarshal` into any value and into an object.
pub record Codec : Type 0 where
  pub marshal : Marshal
  pub unmarshal : String → Result Json
  pub unmarshal_object : String → Result (Map Json)

-- `Input` and the records of its fields; `none` and an empty list are left out of the text.
pub record InputRequest : Type 0 where
  pub body : Option Json
  pub headers : Header
  pub query : Map (List String)
  pub path_params : Map String
  pub method : String
  pub path : String

pub record InputUser : Type 0 where
  pub properties : Map Json
  pub groups : List String
  pub bindings : List Binding
  pub roles : List Role
  pub resource_permissions_map : PermissionsOnResourceMap

pub record Input : Type 0 where
  pub request : InputRequest
  pub response_body : Option Json
  pub client_type : String
  pub user : InputUser

-- A field with `omitempty`; a nil value is left out as well.
abbrev pub unless_empty : Bool → String → Json → Map Json
unless_empty empty key value = if empty then [] else (key, value) ∷ []

abbrev pub optional : String → Option Json → Map Json
optional key none = []
optional key (some null) = []
optional key (some value) = (key, value) ∷ []

-- A nil slice is encoded as null.
abbrev pub strings_or_null : Option (List String) → Json
strings_or_null none = null
strings_or_null (some values) = strings values

unfoldable pub role_json : Role → Json
role_json r =
    object (("roleId", str r.role_id) ∷ ("permissions", strings_or_null r.permissions) ∷ [])

unfoldable pub input_request_json : InputRequest → Json
input_request_json r = object (
    optional "body" r.body
    ++ unless_empty (is_empty r.headers) "headers"
        (object (map (λ (k, v). (k, strings v)) r.headers))
    ++ unless_empty (is_empty r.query) "query" (object (map (λ (k, v). (k, strings v)) r.query))
    ++ unless_empty (is_empty r.path_params) "pathParams"
        (object (map (λ (k, v). (k, str v)) r.path_params))
    ++ ("method", str r.method) ∷ ("path", str r.path) ∷ [])

unfoldable pub input_user_json : InputUser → Json
input_user_json u = object (
    unless_empty (is_empty u.properties) "properties" (object u.properties)
    ++ unless_empty (is_empty u.groups) "groups" (strings u.groups)
    ++ unless_empty (is_empty u.bindings) "bindings" (array (map binding_json u.bindings))
    ++ unless_empty (is_empty u.roles) "roles" (array (map role_json u.roles))
    ++ unless_empty (is_empty u.resource_permissions_map) "resourcePermissionsMap"
        (object (map (λ (k, v). (k, bool v)) u.resource_permissions_map)))

unfoldable pub input_json : Input → Json
input_json input = object (
    ("request", input_request_json input.request)
      ∷ ("response", object (optional "body" input.response_body))
      ∷ unless_empty (input.client_type == "") "clientType" (str input.client_type)
    ++ ("user", input_user_json input.user) ∷ [])

module _ (codec : Codec) where
  -- `UnmarshalHeader` into an object: a header that is not set leaves it empty.
  unfoldable pub unmarshal_header : Header → String → Result (Map Json)
  unmarshal_header headers header_key =
      let value = get headers header_key in
      if value == "" then ok [] else codec.unmarshal_object value

  unfoldable pub user_groups_of : Request → EnvironmentVariables → List String
  user_groups_of req env =
      let groups = get req.header env.user_groups_header in
      if groups == "" then [] else split b',' groups

  unfoldable pub should_parse_json_body : Request → Bool
  should_parse_json_body req =
      has_application_json_content_type req.header
      && ltb 0 req.content_length
      && (req.method == "PATCH"
          || req.method == "POST"
          || req.method == "PUT"
          || req.method == "DELETE")

  unfoldable pub request_body : Request → Result (Option Json)
  request_body req =
      if should_parse_json_body req
      then (explained "failed request body parse: " req.body >>= λ bytes.
          explained "failed request body deserialization: " (codec.unmarshal bytes) >>= λ body.
          ok (some body))
      else ok none

  unfoldable pub permissions_map_of : Bool → User → Result PermissionsOnResourceMap
  permissions_map_of enabled user =
      if enabled then build_optimized_resource_permissions_map user else ok []

  unfoldable pub input_of :
      Request
      → EnvironmentVariables
      → User
      → Option Json
      → Map Json
      → PermissionsOnResourceMap
      → Option Json
      → Input
  input_of req env user response_body properties permissions body = record {
    request = record {
      body = body;
      headers = req.header;
      query = req.query;
      path_params = req.path_params;
      method = req.method;
      path = req.url_path;
    };
    response_body = response_body;
    client_type = get req.header env.client_type_header;
    user = record {
      properties = properties;
      groups = user_groups_of req env;
      bindings = user.user_bindings;
      roles = user.user_roles;
      resource_permissions_map = permissions;
    };
  }

  -- `CreateRegoQueryInput`. The body is put back after it has been read, so the request stays as
  -- it is.
  unfoldable pub create_rego_query_input :
      Request → EnvironmentVariables → Bool → User → Option Json → Result String
  create_rego_query_input req env enabled user response_body =
      explained "user properties header is not valid: "
        (unmarshal_header req.header env.user_properties_header)
      >>= λ properties. permissions_map_of enabled user >>= λ permissions.
          request_body req >>= λ body. explained "failed input JSON encode: " (
            codec.marshal
              (input_json (input_of req env user response_body properties permissions body)))
