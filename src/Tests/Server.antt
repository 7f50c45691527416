-- ===== src/Tests/Server.antt =====
-- A request from the first middleware of the server to the target service.
use rond.Prelude.{elem, true, [], ◌∷◌, Option, none, some, ok, ◌≡◌, refl}
use rond.Prelude.Map.{lookup, insert}
use rond.Prelude.Text.{
  has_prefix, to_upper, ends_with, replace_all, lower_char, replace_first, rest_behind,
}
use rond.Http.Header.{get, set, canonical, all_tokens, canonical_from, canonical_char}
use rond.Http.Writer.{fresh, write, write_header}
use rond.Utils.{has_application_json_content_type, sanitize_string}
use rond.Config.{EnvironmentVariables, get_env}
use rond.Openapi.{OpenApiSpec, RondConfig}
use rond.Openapi.PathVariables.{convert_path_variables_to_colons, clean_wildcard}
use rond.Openapi.Routes.{
  prepare_oas_router, register_paths, register_verbs, register_verb, register_all, contains,
  create_routes_map, add_routes, add_path_routes,
}
use rond.Openapi.FindPermission.{
  find_permission, oas_handler, read_permission, parse_bool, permission_header,
}
use rond.Mongo.{retrieve_user_bindings_and_roles, get_mongo_client}
use rond.Core.Context.{
  Context, PartialResultsEvaluators, CurrentRoute, get_x_permission, get_partial_results_evaluators,
  get_router_info, get_metrics, with_environment, with_metrics, with_router_info,
  with_partial_results_evaluators, with_opa_module_config, with_x_permission,
  get_path_template_or_default_to_empty_string,
}
use rond.Core.PermissionsMap.{build_optimized_resource_permissions_map, add_bindings}
use rond.Core.Evaluators.{
  ResultSet, evaluate, get_evaluator_from_policy, policy_evaluation, decide_results,
}
use rond.Core.Input.{
  create_rego_query_input, unmarshal_header, request_body, should_parse_json_body,
  permissions_map_of,
}
use rond.Core.Transport.{OpaTransport, new_opa_transport}
use rond.Core.Middleware.{opa_middleware, admit, admitted}
use rond.Service.Handler.Responded.{IsGranted, rbac_handler-responded}
use rond.Service.Handler.{
  proxied, responded, direct, rbac_handler, evaluate_request, reverse_proxy_or_response,
  reverse_proxy, pass_query,
}
use rond.Service.Router.{rbac, routes_to_not_proxy}
use rond.Service.Server.{serve_evaluated, with_client}
use rond.Service.Server.Responded.{IsAnswered, serve_evaluated-responded}
use rond.Http.Request.{Request}
use rond.Service.Server.Proxied.{IsPoliced, serve_evaluated-proxied}
use rond.Tests.Fixtures.{env, simple_lo, verb_config_of, plain_router, serve_first}
use rond.Tests.Engine.{engine, codec, context, request, plain_config}
use rond.Tests.Requests.{evaluators_of, service}
use rond.Tests.Routing.{module_config}

abbrev pub spec : OpenApiSpec
spec = record { paths = ("/items", ("get", verb_config_of (some plain_config)) ∷ []) ∷ [] }

abbrev blank : Context ResultSet
blank = record context {
  env = none;
  metrics = none;
  permission = none;
  evaluators = none;
  router_info = none;
}

abbrev route : CurrentRoute
route = some (ok "/items")

abbrev transport : Option (OpaTransport ResultSet)
transport = some (record {
  round_tripper = service;
  context = record context { opa_module = some module_config };
  request = request;
  permission = plain_config;
  partial_results_evaluators = evaluators_of;
  env = env;
})

served :
    serve_evaluated engine codec simple_lo service plain_router module_config spec env evaluators_of
      none rbac route blank fresh request
    ≡ ok (proxied (direct env request) transport fresh)
unfolding serve_evaluated with_client routes_to_not_proxy elem opa_middleware admit admitted
    find_permission oas_handler with_environment with_metrics with_router_info
    with_partial_results_evaluators with_opa_module_config with_x_permission
    get_path_template_or_default_to_empty_string sanitize_string replace_all prepare_oas_router
    register_paths register_verbs register_verb register_all contains create_routes_map add_routes
    add_path_routes to_upper lookup insert convert_path_variables_to_colons clean_wildcard ends_with
    serve_first rbac_handler get_env get_x_permission get_partial_results_evaluators
    evaluate_request retrieve_user_bindings_and_roles get_mongo_client create_rego_query_input get
    unmarshal_header permissions_map_of build_optimized_resource_permissions_map add_bindings
    request_body should_parse_json_body has_application_json_content_type has_prefix
    get_evaluator_from_policy policy_evaluation evaluate get_router_info get_metrics decide_results
    pass_query reverse_proxy_or_response reverse_proxy new_opa_transport read_permission parse_bool
    permission_header set canonical all_tokens canonical_from canonical_char lower_char
served = refl

serve_evaluated-proxied_example :
    IsPoliced engine codec simple_lo service plain_router module_config spec env evaluators_of none
      blank request
      (direct env request)
serve_evaluated-proxied_example =
    serve_evaluated-proxied engine codec simple_lo service plain_router module_config spec env
      evaluators_of none route blank fresh request refl (direct env request) transport fresh served

abbrev standalone : EnvironmentVariables
standalone = record env { standalone = true }

abbrev evaluating : Context ResultSet
evaluating = record context { env = some standalone }

answered :
    rbac_handler engine codec simple_lo service evaluating fresh request
    ≡ ok (responded (write (write_header fresh 200) ""))
unfolding rbac_handler get_env get_x_permission get_partial_results_evaluators evaluate_request
    retrieve_user_bindings_and_roles get_mongo_client create_rego_query_input get unmarshal_header
    lookup permissions_map_of build_optimized_resource_permissions_map add_bindings request_body
    should_parse_json_body has_application_json_content_type has_prefix get_evaluator_from_policy
    policy_evaluation evaluate get_router_info get_metrics decide_results pass_query
    reverse_proxy_or_response
answered = refl

succeeds : (write (write_header fresh 200) "").status ≡ some 200
unfolding write write_header
succeeds = refl

rbac_handler-responded_example :
    (e : EnvironmentVariables) × (permission : RondConfig) × (evaluators : PartialResultsEvaluators
      ResultSet)
    × (some standalone ≡ some e)
    × (some plain_config ≡ some permission)
    × (some evaluators_of ≡ some evaluators)
    × IsGranted engine codec simple_lo service evaluating e evaluators permission request
rbac_handler-responded_example =
    rbac_handler-responded engine codec simple_lo service evaluating fresh request
      (write (write_header fresh 200) "") refl answered succeeds

abbrev prefixed : Request
prefixed = record request { escaped_path = "/eval/items"; request_uri = "/eval/items" }

granted_there :
    serve_evaluated engine codec simple_lo service plain_router module_config spec standalone
      evaluators_of none rbac route blank fresh prefixed
    ≡ ok (responded (write (write_header fresh 200) ""))
unfolding serve_evaluated with_client routes_to_not_proxy elem opa_middleware admit admitted
    find_permission oas_handler with_environment with_metrics with_router_info
    with_partial_results_evaluators with_opa_module_config with_x_permission
    get_path_template_or_default_to_empty_string sanitize_string replace_all prepare_oas_router
    register_paths register_verbs register_verb register_all contains create_routes_map add_routes
    add_path_routes to_upper lookup insert convert_path_variables_to_colons clean_wildcard ends_with
    serve_first rbac_handler get_env get_x_permission get_partial_results_evaluators
    evaluate_request retrieve_user_bindings_and_roles get_mongo_client create_rego_query_input get
    unmarshal_header permissions_map_of build_optimized_resource_permissions_map add_bindings
    request_body should_parse_json_body has_application_json_content_type has_prefix
    get_evaluator_from_policy policy_evaluation evaluate get_router_info get_metrics decide_results
    pass_query reverse_proxy_or_response reverse_proxy new_opa_transport read_permission parse_bool
    permission_header set canonical all_tokens canonical_from canonical_char lower_char
    replace_first rest_behind
granted_there = refl

serve_evaluated-responded_example :
    IsAnswered engine codec simple_lo service plain_router module_config spec standalone
      evaluators_of none blank prefixed
serve_evaluated-responded_example =
    serve_evaluated-responded engine codec simple_lo service plain_router module_config spec
      standalone evaluators_of none route blank fresh prefixed refl refl
      (write (write_header fresh 200) "") granted_there succeeds
