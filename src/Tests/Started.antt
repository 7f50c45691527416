-- ===== src/Tests/Started.antt =====
-- The program, started.
use rond.Prelude.{
  elem, String, Bool, true, false, [], ◌∷◌, ◌++◌, none, ok, err, ◌≡◌, ◌⊎◌, refl, error_text,
}
use rond.Prelude.Map.{lookup, insert}
use rond.Utils.{read_file}
use rond.Config.{get_env_or_die}
use rond.Config.Startup.{IsUsable}
use rond.Openapi.Adapt.{adapt_oas_spec, adapt_verb, map_values}
use rond.Openapi.Load.{
  Sources, load_oas_from_file_or_network, fetch_open_api, deserialize_spec, retry_fetch,
}
use rond.Openapi.PathVariables.{convert_path_variables_to_colons, clean_wildcard}
use rond.Openapi.Routes.{
  prepare_oas_router, register_paths, register_verbs, register_verb, register_all, contains,
  create_routes_map, add_routes, add_path_routes,
}
use rond.Openapi.FindPermission.{
  find_permission, oas_handler, read_permission, parse_bool, permission_header,
}
use rond.Prelude.Text.{to_upper, ends_with, replace_all, lower_char}
use rond.Http.Header.{get, set, canonical, all_tokens, canonical_from, canonical_char}
use rond.Mongo.{MongoClient, no_documents}
use rond.Mongo.Setup.{Driver, new_mongo_client}
use rond.Core.RegoModule.{FileSystem, load_rego_module, rego_module_path}
use rond.Core.Evaluators.{ResultSet, granted, new_partial_result_evaluator}
use rond.Core.Evaluators.Setup.{
  setup_evaluators, setup_paths, setup_verbs, setup_verb, ensure_evaluator,
  create_partial_evaluator,
}
use rond.Service.Router.{metrics_route_path, setup_routes}
use rond.Service.Server.{
  Swagger, endpoint, eval_router, metrics, setup_router, metrics_entries, status_entries,
  setup_standalone,
}
use rond.Entrypoint.{Server, serving, Outside, start, entrypoint}
use rond.Entrypoint.Serving.{HasEvaluator, entrypoint-HasEvaluator}
use rond.Tests.Fixtures.{env, simple_lo, plain_router, serve_first}
use rond.Tests.Engine.{engine, plain_config}
use rond.Tests.Routes.{plain_paths}
use rond.Tests.Server.{spec}

abbrev files : FileSystem
files = record {
  walk = λ root. "policies.rego" ∷ [];
  ext = λ path. ".rego";
  base = λ path. path;
  read = λ path. ok "package policies";
}

abbrev sources : Sources
sources = record {
  fetch = λ n url. ok (record { status_code = 200; body = "{}" });
  read = λ path. err (error_text "no such file");
  parse_spec = λ text. ok spec;
}

abbrev client : MongoClient
client = record {
  find_bindings = λ filter. ok [];
  find_roles = λ filter. ok [];
  find_first = λ name filter. no_documents (error_text "no documents");
  find_all = λ name filter. ok [];
}

abbrev driver : Driver String
driver = record {
  parse_and_validate = λ url. ok "rond";
  connect = λ url. ok url;
  disconnect = λ c. ok tt;
  ping = λ c. ok tt;
  collections = λ c database roles bindings. client;
}

abbrev swagger : Swagger
swagger = record {
  new_router = λ version. ok tt;
  add_route = λ method path definitions. ok tt;
  generate_and_expose_openapi = ok tt;
}

abbrev outside : Outside String ResultSet String
outside = record {
  get_env_variables = λ table. ok env;
  init_logger = λ level. ok tt;
  stat = λ directory. ok tt;
  files = files;
  sources = sources;
  driver = driver;
  opa = engine;
  swagger = swagger;
  router = plain_router;
  lo = simple_lo;
  paths = plain_paths;
}

abbrev started_server : Server ResultSet
started_server = record {
  env = env;
  opa_module = record { name = "policies.rego"; content = "package policies" };
  oas = spec;
  client = none;
  evaluators = ("allow", granted) ∷ ("mask", granted) ∷ [];
  entries =
      status_entries
      ++ endpoint metrics_route_path none metrics
        ∷ eval_router (setup_routes simple_lo plain_paths spec env)
        ∷ [];
}

started : entrypoint outside 1 ≡ serving started_server
unfolding entrypoint start get_env_or_die load_rego_module rego_module_path read_file
    load_oas_from_file_or_network retry_fetch fetch_open_api deserialize_spec adapt_oas_spec
    adapt_verb map_values new_mongo_client setup_evaluators setup_paths setup_verbs setup_verb
    ensure_evaluator create_partial_evaluator new_partial_result_evaluator lookup insert
    setup_router metrics_entries setup_standalone
started = refl

found :
    find_permission plain_router (prepare_oas_router spec) "/items" "GET" ≡ ok (plain_config, none)
unfolding find_permission oas_handler read_permission parse_bool permission_header
    prepare_oas_router register_paths register_verbs register_verb register_all contains
    create_routes_map add_routes add_path_routes to_upper lookup insert
    convert_path_variables_to_colons clean_wildcard ends_with replace_all serve_first elem get set
    canonical all_tokens canonical_from canonical_char lower_char
found = refl

entrypoint-HasEvaluator_example :
    IsUsable env
    × HasEvaluator outside started_server "allow"
    × ((◌≡◌ {A = Bool} false true) ⊎ HasEvaluator outside started_server "mask")
entrypoint-HasEvaluator_example =
    entrypoint-HasEvaluator outside 1 started_server plain_router "/items" "GET" plain_config
      started found refl
