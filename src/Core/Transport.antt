-- ===== src/Core/Transport.antt =====
-- core/opa_transport.go: the response of the target service is replaced by what the response
-- policy makes of it. The transport below is a parameter: it gives a response or an error, and
-- what it leaves unread of the request's body, which the clone that it sends shares with `request`.
pub mod Overwritten
pub mod Drained
use rond.Prelude.{
  ℕ, String, Bool, ◌&&◌, Option, none, some, Result, ok, err, panic, GoError, error_text, ◌==◌, eqb,
  leb, ltb, not, if◌then◌else◌, ◌>>=◌,
}
use rond.Prelude.Text.{◌⧺◌, itoa, byte_length}
use rond.Prelude.Json.{Json, null}
use rond.Http.Header.{Header, set}
use rond.Http.Request.{Request}
use rond.Utils.{
  Lo, generic_business_error_message, no_permissions_error_message,
  has_application_json_content_type, request_error_json,
}
use rond.Config.{EnvironmentVariables}
use rond.Openapi.{RondConfig}
use rond.Mongo.{retrieve_user_bindings_and_roles, explained}
use rond.Core.Context.{Context, PartialResultsEvaluators}
use rond.Core.Evaluators.{Opa, get_evaluator_from_policy, evaluate}
use rond.Core.Input.{Codec, create_rego_query_input}

-- http.Response. The body is what reading to its end gives, and whether closing it succeeds.
pub record Response : Type 0 where
  pub status_code : ℕ
  pub header : Header
  pub content_length : ℕ
  pub body : Result String
  pub closed : Result (Unit {0})

abbrev pub RoundTripper : Type 0
RoundTripper = Request → Result Response × Result String

unfoldable pub is_2xx : ℕ → Bool
is_2xx status_code = leb 200 status_code && ltb status_code 300

unfoldable pub overwrite_response : Response → String → Response
overwrite_response original new_body = record original {
  body = ok new_body;
  closed = ok tt;
  content_length = byte_length new_body;
  header = set original.header "Content-Length" (itoa (byte_length new_body));
}

unfoldable pub overwrite_response_with_status_code : Response → String → ℕ → Response
overwrite_response_with_status_code original new_body status_code =
    record (overwrite_response original new_body) { status_code = status_code }

-- A failed encoding is ignored, and leaves no bytes.
abbrev pub content_or_empty : Result String → String
content_or_empty (ok content) = content
content_or_empty (err e) = ""
content_or_empty panic = ""

abbrev pub message_of : ℕ → String
message_of status_code =
    if eqb status_code 403 then no_permissions_error_message else generic_business_error_message

-- `OPATransport`
pub record OpaTransport (P : Type 0) : Type 0 where
  pub round_tripper : RoundTripper
  pub context : Context P
  pub request : Request
  pub permission : RondConfig
  pub partial_results_evaluators : PartialResultsEvaluators P
  pub env : EnvironmentVariables

-- `NewOPATransport`, with `http.DefaultTransport`.
unfoldable pub new_opa_transport :
    {P : Type 0}
    → RoundTripper
    → Context P
    → Request
    → RondConfig
    → PartialResultsEvaluators P
    → EnvironmentVariables
    → OpaTransport P
new_opa_transport default_transport context req permission evaluators env = record {
  round_tripper = default_transport;
  context = context;
  request = req;
  permission = permission;
  partial_results_evaluators = evaluators;
  env = env;
}

module _ {V P : Type 0} (opa : Opa V P) (codec : Codec) (lo : Lo) (t : OpaTransport P) where
  unfoldable pub response_with_error : Response → GoError → ℕ → Response
  response_with_error resp e status_code =
      overwrite_response_with_status_code resp
        (content_or_empty
          (codec.marshal (request_error_json e.message (message_of status_code) status_code)))
        status_code

  -- A step that answers its error with a status.
  abbrev pub or_respond {ℓ} :
      {A : Type ℓ} → Response → ℕ → Result A → (A → Result Response) → Result Response
  or_respond resp status_code (ok a) next = next a
  or_respond resp status_code (err e) next = ok (response_with_error resp e status_code)
  or_respond resp status_code panic next = panic

  -- A nil value is encoded as null.
  abbrev pub value_of : Option Json → Json
  value_of none = null
  value_of (some value) = value

  -- The evaluation of the response policy, on the decoded body of the response. `req` is
  -- `t.request` as the transport below has left it.
  unfoldable pub filter_response : Request → Response → Json → Result Response
  filter_response req resp decoded_body =
      or_respond resp 500 (retrieve_user_bindings_and_roles lo t.context.mongo req t.env)
        λ user_info.
          or_respond resp 500
            (create_rego_query_input codec req t.env
              t.permission.options.enable_resource_permissions_map_optimization user_info
              (some decoded_body))
            λ input.
              or_respond resp 500
                (get_evaluator_from_policy opa t.partial_results_evaluators t.context
                  t.permission.response_flow.policy_name input t.env)
                λ evaluator. or_respond resp 403 (evaluate opa evaluator) λ body_to_proxy.
                  or_respond resp 500 (codec.marshal (value_of body_to_proxy))
                    λ marshalled. ok (overwrite_response resp marshalled)

  -- What is done with the bytes that were read.
  unfoldable pub handle_body : Request → Response → String → Result Response
  handle_body req resp bytes =
      if bytes == ""
      then ok resp
      else if not (has_application_json_content_type resp.header)
      then ok (response_with_error resp (error_text "content-type is not application/json") 500)
      else (explained "response body is not valid: " (codec.unmarshal bytes)
          >>= filter_response req resp)

  -- The body has been read when a response is handled, so an empty one stays so.
  unfoldable pub handle_response : Request → Response → Result Response
  handle_response req resp =
      if is_2xx resp.status_code
      then (resp.body >>= λ bytes. resp.closed >>= λ _. handle_body req resp bytes)
      else ok resp

  abbrev pub handle_outcome : Result Response × Result String → Result Response
  handle_outcome (ok resp, left) = handle_response (record t.request { body = left }) resp
  handle_outcome (err e, left) = err e
  handle_outcome (panic, left) = panic

  -- `RoundTrip`
  unfoldable pub round_trip : Request → Result Response
  round_trip req = handle_outcome (t.round_tripper req)
