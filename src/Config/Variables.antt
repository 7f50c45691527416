-- ===== src/Config/Variables.antt =====
-- The table of internal/config/env.go by which configlib reads the environment.
use rond.Prelude.{String, Bool, true, false, List, [], ◌∷◌}

-- configlib.EnvConfig: the key, the field that it fills, and its value where the key is not set.
pub record EnvConfig : Type 0 where
  pub key : String
  pub variable : String
  pub default_value : String
  pub required : Bool

abbrev pub variable_of : String → String → String → EnvConfig
variable_of key variable default_value = record {
  key = key;
  variable = variable;
  default_value = default_value;
  required = false;
}

abbrev pub env_variables_config : List EnvConfig
env_variables_config =
    variable_of "LOG_LEVEL" "LogLevel" "info"
    ∷ variable_of "HTTP_PORT" "HTTPPort" "8080"
    ∷ variable_of "SERVICE_VERSION" "ServiceVersion" "latest"
    ∷ variable_of "TARGET_SERVICE_HOST" "TargetServiceHost" ""
    ∷ variable_of "TARGET_SERVICE_OAS_PATH" "TargetServiceOASPath" ""
    ∷ record {
      key = "OPA_MODULES_DIRECTORY";
      variable = "OPAModulesDirectory";
      default_value = "";
      required = true;
    }
    ∷ variable_of "API_PERMISSIONS_FILE_PATH" "APIPermissionsFilePath" ""
    ∷ variable_of "USER_PROPERTIES_HEADER_KEY" "UserPropertiesHeader" "miauserproperties"
    ∷ variable_of "USER_GROUPS_HEADER_KEY" "UserGroupsHeader" "miausergroups"
    ∷ variable_of "USER_ID_HEADER_KEY" "UserIdHeader" "miauserid"
    ∷ variable_of "CLIENT_TYPE_HEADER_KEY" "ClientTypeHeader" "Client-Type"
    ∷ variable_of "DELAY_SHUTDOWN_SECONDS" "DelayShutdownSeconds" "10"
    ∷ variable_of "MONGODB_URL" "MongoDBUrl" ""
    ∷ variable_of "BINDINGS_COLLECTION_NAME" "BindingsCollectionName" ""
    ∷ variable_of "ROLES_COLLECTION_NAME" "RolesCollectionName" ""
    ∷ variable_of "STANDALONE" "Standalone" ""
    ∷ variable_of "PATH_PREFIX_STANDALONE" "PathPrefixStandalone" "/eval"
    ∷ variable_of "BINDINGS_CRUD_SERVICE_URL" "BindingsCrudServiceURL" ""
    ∷ variable_of "ADDITIONAL_HEADERS_TO_PROXY" "AdditionalHeadersToProxy" "miauserid"
    ∷ variable_of "EXPOSE_METRICS" "ExposeMetrics" "true"
    ∷ []
