-- ===== src/Tests/Requests.antt =====
-- Requests: the middleware, the handler, the evaluators and the transport.
use rond.Prelude.{
  if◌then◌else◌, ◌==◌, zero, suc, String, true, false, [], ◌∷◌, none, some, ok, err, error_text,
  ◌≡◌, ◌↔◌, refl, arith, Memᴰ, IsDistinct, Sentinel,
}
use rond.Prelude.Map.{lookup}
use rond.Prelude.Json.{null}
use rond.Http.Header.{get, canonical, all_tokens, canonical_from, canonical_char}
use rond.Prelude.Text.{has_prefix, upper_char, lower_char}
use rond.Utils.{has_application_json_content_type}
use rond.Core.PermissionsMap.{build_optimized_resource_permissions_map, add_bindings}
use rond.Http.Request.{Request}
use rond.Openapi.Load.{
  Sources, load_oas_from_file_or_network, documentation_url, fetch_open_api, deserialize_spec,
  wrapping,
}
use rond.Openapi.Load.Retried.{load_oas_from_file_or_network-retries}
use rond.Openapi.Adapt.{adapt_oas_spec}
use rond.Mongo.{retrieve_user_bindings_and_roles, get_mongo_client, roles_ids_from_bindings}
use rond.Mongo.RolesIds.{Names, roles_ids_from_bindings_lem}
use rond.Core.Context.{PartialResultsEvaluators, get_router_info, get_metrics}
use rond.Core.Evaluators.{
  OpaEvaluator, ResultSet, granted, evaluate, get_evaluator_from_policy, decide_results,
  single_value,
}
use rond.Core.Evaluators.Allowed.{IsComplete, Accepts, evaluate-ok_iff}
use rond.Core.Input.{
  Codec, create_rego_query_input, unmarshal_header, request_body, should_parse_json_body,
  permissions_map_of,
}
use rond.Core.Transport.{
  Response, RoundTripper, OpaTransport, is_2xx, round_trip, overwrite_response, handle_response,
  handle_body, filter_response, response_with_error, overwrite_response_with_status_code,
}
use rond.Core.Transport.Drained.{round_trip-drained}
use rond.Core.Transport.Overwritten.{IsFiltered, round_trip-IsFiltered}
use rond.Tests.Fixtures.{env, simple_lo, binding, desk}
use rond.Tests.Engine.{engine, codec, context, request, plain_config, evaluator_of, masked}

abbrev answer : Response
answer = record {
  status_code = 200;
  header = ("Content-Type", "application/json" ∷ []) ∷ [];
  content_length = 2;
  body = ok "{}";
  closed = ok tt;
}

abbrev pub service : RoundTripper
service = λ req. (ok answer, req.body)

abbrev evaluator : OpaEvaluator ResultSet
evaluator = record {
  policy_evaluator = evaluator_of granted;
  policy_name = "allow";
  context = context;
}

evaluate-ok_iff_example : (evaluate engine evaluator ≡ ok none) ↔ (
    (results : ResultSet) × (ok granted ≡ ok results) × IsComplete context × Accepts results none)
evaluate-ok_iff_example = evaluate-ok_iff engine evaluator none

roles_ids_from_bindings_lem_example :
    ((x : String)
      → Memᴰ x (roles_ids_from_bindings simple_lo (binding (some desk) [] ("editor" ∷ []) ∷ []))
        ↔ Names (binding (some desk) [] ("editor" ∷ []) ∷ []) x)
    × IsDistinct (roles_ids_from_bindings simple_lo (binding (some desk) [] ("editor" ∷ []) ∷ []))
roles_ids_from_bindings_lem_example =
    roles_ids_from_bindings_lem simple_lo (binding (some desk) [] ("editor" ∷ []) ∷ [])

abbrev pub evaluators_of : PartialResultsEvaluators ResultSet
evaluators_of = ("allow", granted) ∷ ("mask", masked) ∷ []

abbrev masking : OpaTransport ResultSet
masking = record {
  round_tripper = service;
  context = context;
  request = request;
  permission = plain_config;
  partial_results_evaluators = evaluators_of;
  env = env;
}

two-2xx : is_2xx 200 ≡ true
unfolding is_2xx
two-2xx = refl

filtered : round_trip engine codec simple_lo masking request ≡ ok (overwrite_response answer "{}")
unfolding round_trip handle_response handle_body filter_response is_2xx
    retrieve_user_bindings_and_roles get_mongo_client create_rego_query_input get unmarshal_header
    lookup permissions_map_of build_optimized_resource_permissions_map add_bindings request_body
    should_parse_json_body has_application_json_content_type has_prefix get_evaluator_from_policy
    evaluate get_router_info get_metrics decide_results single_value canonical all_tokens
    canonical_from canonical_char upper_char lower_char
filtered = refl

status-filtered : is_2xx (overwrite_response answer "{}").status_code ≡ true
unfolding is_2xx overwrite_response
status-filtered = refl

round_trip-IsFiltered_example :
    IsFiltered engine codec simple_lo masking
      (record request { body = ok "" })
      answer
      "{}"
      (overwrite_response answer "{}")
round_trip-IsFiltered_example =
    round_trip-IsFiltered engine codec simple_lo masking request answer (ok "") "{}"
      (overwrite_response answer "{}") refl two-2xx refl refl filtered status-filtered

-- A request with a body, which the service below reads.
abbrev post : Request
post = record request {
  method = "POST";
  header = ("Content-Type", "application/json" ∷ []) ∷ [];
  content_length = 2;
  body = ok "{}";
}

abbrev strict_codec : Codec
strict_codec = record codec {
  unmarshal = λ s. if s == "" then err (error_text "unexpected end of JSON input") else ok null;
}

abbrev reading : OpaTransport ResultSet
reading = record masking { round_tripper = λ req. (ok answer, ok ""); request = post }

post_json : should_parse_json_body strict_codec post ≡ true
unfolding should_parse_json_body has_application_json_content_type has_prefix get canonical
    all_tokens canonical_from canonical_char upper_char lower_char lookup
post_json = refl

drained :
    round_trip engine strict_codec simple_lo reading post
    ≡ ok (overwrite_response_with_status_code answer "{}" 500)
unfolding round_trip handle_response handle_body filter_response response_with_error is_2xx
    retrieve_user_bindings_and_roles get_mongo_client create_rego_query_input get unmarshal_header
    lookup permissions_map_of build_optimized_resource_permissions_map add_bindings request_body
    should_parse_json_body has_application_json_content_type has_prefix canonical all_tokens
    canonical_from canonical_char upper_char lower_char
drained = refl

round_trip-drained_example :
    is_2xx (overwrite_response_with_status_code answer "{}" 500).status_code ≡ false
round_trip-drained_example =
    round_trip-drained engine strict_codec simple_lo reading post answer "{}"
      (overwrite_response_with_status_code answer "{}" 500)
      (error_text "unexpected end of JSON input") refl refl post_json two-2xx refl refl drained

-- The target service is not there at first.
abbrev sources : Sources
sources = record {
  fetch = λ n url. elim n [
    | zero ↦ err (error_text "connection refused")
    | suc m ↦ ok (record { status_code = 200; body = "{}" })
  ];
  read = λ path. err (error_text "no such file");
  parse_spec = λ text. ok (record { paths = [] });
}

fetch-fails :
    fetch_open_api sources 0 (documentation_url env)
    ≡ err (wrapping Sentinel.request_failed "request failed: connection refused")
unfolding fetch_open_api
fetch-fails = refl

fetch-succeeds :
    fetch_open_api sources 1 (documentation_url env) ≡ ok (adapt_oas_spec (record { paths = [] }))
unfolding fetch_open_api deserialize_spec
fetch-succeeds = refl

load_oas_from_file_or_network-retries_example :
    load_oas_from_file_or_network sources 2 env ≡ some (ok (adapt_oas_spec (record { paths = [] })))
load_oas_from_file_or_network-retries_example =
    load_oas_from_file_or_network-retries sources env 1 2 (adapt_oas_spec (record { paths = [] }))
      refl refl
      ((wrapping Sentinel.request_failed "request failed: connection refused", fetch-fails), tt)
      fetch-succeeds (omega arith)
