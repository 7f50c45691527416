-- ===== src/Service/Handler.antt =====
-- service/handler.go: a request is evaluated, and then proxied or, in standalone mode, answered.
-- The reverse proxy of `net/http/httputil` is not run here: what it is called with is the outcome.
pub mod Refused
pub mod Responded
pub mod Forwarded
pub mod Directed
use rond.Prelude.{
  ℕ, String, Bool, true, false, ◌&&◌, not, Option, none, some, Result, ok, err, panic, GoError,
  Sentinel, ◌==◌, if◌then◌else◌, ◌>>=◌,
}
use rond.Prelude.Map.{lookup}
use rond.Prelude.Json.{Json}
use rond.Http.Header.{Header, get, set}
use rond.Http.Request.{Request}
use rond.Http.Writer.{Writer, write_header, write}
use rond.Utils.{
  Lo, generic_business_error_message, no_permissions_error_message, content_type_header_key,
  json_content_type_header, has_application_json_content_type, fail_response,
  fail_response_with_code,
}
use rond.Config.{EnvironmentVariables, get_env}
use rond.Openapi.{RondConfig}
use rond.Mongo.{retrieve_user_bindings_and_roles}
use rond.Core.Context.{
  Context, PartialResultsEvaluators, get_x_permission, get_partial_results_evaluators,
}
use rond.Core.Evaluators.{
  Opa, OpaEvaluator, get_evaluator_from_policy, create_query_evaluator, policy_evaluation,
}
use rond.Core.Input.{Codec, create_rego_query_input}
use rond.Core.Transport.{RoundTripper, OpaTransport, new_opa_transport}

abbrev pub url_scheme : String
url_scheme = "http"

abbrev pub base_row_filter_header_key : String
base_row_filter_header_key = "acl_rows"

-- What the proxy sends: where to, and the request.
pub record Outgoing : Type 0 where
  pub host : String
  pub scheme : String
  pub request : Request

-- A response, or a call of the proxy: what it sends, and its transport where that is not the
-- default one.
pub data Outcome (P : Type 0) : Type 0 where
  responded : Writer → Outcome P
  proxied : Outgoing → Option (OpaTransport P) → Writer → Outcome P

-- What `EvaluateRequest` leaves: an error, which has been answered, or none.
pub data Evaluated : Type 0 where
  refused : GoError → Writer → Evaluated
  passed : Request → Writer → Evaluated

abbrev pub query_header_key : RondConfig → String
query_header_key permission =
    let header_name = permission.request_flow.query_options.header_name in
    if header_name == "" then base_row_filter_header_key else header_name

-- The director of the proxy.
unfoldable pub direct : EnvironmentVariables → Request → Outgoing
direct env req = record {
  host = env.target_service_host;
  scheme = url_scheme;
  request = record req {
    header = elim (lookup "User-Agent" req.header) [
      | none ↦ set req.header "User-Agent" ""
      | some _ ↦ req.header
    ];
  };
}

-- errors.Is(err, opatranslator.ErrEmptyQuery)
abbrev pub is_empty_query_wrap : Option Sentinel → Bool
is_empty_query_wrap (some Sentinel.empty_query) = true
is_empty_query_wrap _ = false

module _ {V P : Type 0} (opa : Opa V P) (codec : Codec) (lo : Lo)
    (default_transport : RoundTripper) where
  module _ (ctx : Context P) (env : EnvironmentVariables) (w : Writer) (req : Request) where
    -- `ReverseProxy`; no permission is a nil pointer.
    unfoldable pub reverse_proxy : Option (RondConfig × PartialResultsEvaluators P) → Outcome P
    reverse_proxy none = proxied (direct env req) none w
    reverse_proxy (some (permission, evaluators)) =
        proxied (direct env req)
          (if permission.response_flow.policy_name == ""
            then none
            else some (new_opa_transport default_transport ctx req permission evaluators env))
          w

    -- The standalone response; reading through a nil permission panics.
    abbrev pub query_answered : Option (RondConfig × PartialResultsEvaluators P) → Result Writer
    query_answered none = panic
    query_answered (some (permission, _)) = ok (
        if permission.request_flow.generate_query
        then record w {
          header =
              set w.header (query_header_key permission)
                (get req.header (query_header_key permission));
        }
        else w)

    -- `ReverseProxyOrResponse`
    unfoldable pub reverse_proxy_or_response :
        Option (RondConfig × PartialResultsEvaluators P) → Result (Outcome P)
    reverse_proxy_or_response found =
        if env.standalone
        then (query_answered found >>= λ answer.
            ok (responded (write (write_header answer 200) "")))
        else ok (reverse_proxy found)

    abbrev pub refuse : ℕ → String → String → GoError → Evaluated
    refuse code technical business e =
        refused e (fail_response_with_code codec.marshal w code technical business)

    -- A step of `EvaluateRequest` whose error is answered.
    abbrev pub or_refuse :
        {A : Type 0} → ℕ → String → String → Result A → (A → Result Evaluated) → Result Evaluated
    or_refuse code technical business (ok a) f = f a
    or_refuse code technical business (err e) f = ok (refuse code technical business e)
    or_refuse code technical business panic f = panic

    -- An evaluation without a query to make is answered by an empty list to a JSON client.
    abbrev pub refuse_evaluation : GoError → Evaluated
    refuse_evaluation e =
        if is_empty_query_wrap e.wraps && has_application_json_content_type req.header
        then refused e (
            write
              (write_header
                (record w {
                  header = set w.header content_type_header_key json_content_type_header;
                })
                200)
              "[]")
        else refuse 403 "RBAC policy evaluation failed" no_permissions_error_message e

    -- The query becomes a header of the request.
    unfoldable pub pass_query : RondConfig → Option Json → Result Evaluated
    pass_query permission none = ok (passed req w)
    pass_query permission (some query) =
        or_refuse 403 "Error while marshaling row filter query" generic_business_error_message
          (codec.marshal query)
          λ query_to_proxy. ok (
            passed
              (record req { header = set req.header (query_header_key permission) query_to_proxy })
              w)

    abbrev pub pass_evaluation : RondConfig → Result (Option Json × Option Json) → Result Evaluated
    pass_evaluation permission (ok (_, query)) = pass_query permission query
    pass_evaluation permission (err e) = ok (refuse_evaluation e)
    pass_evaluation permission panic = panic

    -- The evaluator of the request's policy, and how its error is answered.
    abbrev pub with_evaluator :
        PartialResultsEvaluators P
        → RondConfig
        → String
        → (OpaEvaluator P → Result Evaluated)
        → Result Evaluated
    with_evaluator evaluators permission input f =
        let policy = permission.request_flow.policy_name in
        if not permission.request_flow.generate_query
        then or_refuse 500 "failed partial evaluator retrieval" generic_business_error_message
            (get_evaluator_from_policy opa evaluators ctx policy input env) f
        else or_refuse 403 "RBAC policy evaluator creation failed" no_permissions_error_message
            (create_query_evaluator opa ctx env policy input) f

    -- `EvaluateRequest`
    unfoldable pub evaluate_request : PartialResultsEvaluators P → RondConfig → Result Evaluated
    evaluate_request evaluators permission =
        or_refuse 500 "user bindings retrieval failed" generic_business_error_message
          (retrieve_user_bindings_and_roles lo ctx.mongo req env)
          λ user_info.
            or_refuse 500 "RBAC input creation failed" generic_business_error_message
              (create_rego_query_input codec req env
                permission.options.enable_resource_permissions_map_optimization user_info none)
              λ input. with_evaluator evaluators permission input λ evaluator.
                pass_evaluation permission (policy_evaluation opa lo evaluator permission)

  abbrev pub or_fail :
      {A : Type 0} → Writer → String → Result A → (A → Result (Outcome P)) → Result (Outcome P)
  or_fail w technical (ok a) f = f a
  or_fail w technical (err e) f =
      ok (responded (fail_response codec.marshal w technical generic_business_error_message))
  or_fail w technical panic f = panic

  abbrev pub after_evaluation :
      Context P
      → EnvironmentVariables
      → RondConfig × PartialResultsEvaluators P
      → Evaluated
      → Result (Outcome P)
  after_evaluation ctx env found (refused e w) = ok (responded w)
  after_evaluation ctx env found (passed req w) =
      reverse_proxy_or_response ctx env w req (some found)

  -- `rbacHandler`
  unfoldable pub rbac_handler : Context P → Writer → Request → Result (Outcome P)
  rbac_handler ctx w req = or_fail w "No environment found in context" (get_env ctx.env) λ env.
      or_fail w "no policy permission found in context" (get_x_permission ctx) λ permission.
        or_fail w "no partialResult evaluators found in context"
          (get_partial_results_evaluators ctx)
          λ evaluators.
            evaluate_request ctx env w req evaluators permission
            >>= after_evaluation ctx env (permission, evaluators)

  -- `alwaysProxyHandler`
  unfoldable pub always_proxy_handler : Context P → Writer → Request → Result (Outcome P)
  always_proxy_handler ctx w req =
      or_fail w "no environment found in context" (get_env ctx.env)
        λ env. reverse_proxy_or_response ctx env w req none
