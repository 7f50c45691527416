-- ===== src/Openapi/Load.antt =====
-- The loaders of openapi/openapi_utils.go. The network is a parameter, as what each attempt to
-- fetch gives; so are the file system and the parser of specifications. The loop that retries
-- forever runs on fuel, and `none` is a loop that has not ended.
pub mod Retried
use rond.Prelude.{
  ℕ, suc, zero, ◌+◌, String, Option, none, some, Result, ok, err, panic, GoError, Sentinel,
  error_text, ◌==◌, eqb, if◌then◌else◌, ◌>>=◌,
}
use rond.Prelude.Text.{◌⧺◌, itoa}
use rond.Utils.{read_file}
use rond.Config.{EnvironmentVariables}
use rond.Openapi.{OpenApiSpec}
use rond.Openapi.Adapt.{adapt_oas_spec}

-- A response of the target service: its status, and the bytes read of its body, whose errors the
-- code ignores.
pub record FetchedResponse : Type 0 where
  pub status_code : ℕ
  pub body : String

-- `http.DefaultClient.Get` at each attempt, `os.ReadFile`, and `json.Unmarshal` of a specification.
pub record Sources : Type 0 where
  pub fetch : ℕ → String → Result FetchedResponse
  pub read : String → Result String
  pub parse_spec : String → Result OpenApiSpec

abbrev pub wrapping : Sentinel → String → GoError
wrapping sentinel message = record { wraps = some sentinel; message = message }

abbrev pub sentinel_text : Sentinel → String
sentinel_text Sentinel.request_failed = "request failed"
sentinel_text Sentinel.not_found_oas_definition = "not found oas definition"
sentinel_text Sentinel.file_load_failed = "file loading failed"
sentinel_text Sentinel.empty_query = "empty query"

unfoldable pub documentation_url : EnvironmentVariables → String
documentation_url env = "http://" ⧺ env.target_service_host ⧺ env.target_service_oas_path

module _ (sources : Sources) where
  unfoldable pub deserialize_spec : String → Sentinel → Result OpenApiSpec
  deserialize_spec spec error_wrapper = elim (sources.parse_spec spec) [
    | ok oas ↦ ok (adapt_oas_spec oas)
    | err e ↦
        err
          (wrapping error_wrapper (sentinel_text error_wrapper ⧺ ": unmarshal error: " ⧺ e.message))
    | panic ↦ panic
  ]

  abbrev pub check_fetched : Result FetchedResponse → Result OpenApiSpec
  check_fetched (err e) = err (wrapping Sentinel.request_failed ("request failed: " ⧺ e.message))
  check_fetched panic = panic
  check_fetched (ok resp) =
      if eqb resp.status_code 200
      then deserialize_spec resp.body Sentinel.request_failed
      else err (
          wrapping Sentinel.request_failed
            ("request failed: invalid status code " ⧺ itoa resp.status_code))

  unfoldable pub fetch_open_api : ℕ → String → Result OpenApiSpec
  fetch_open_api attempt url = check_fetched (sources.fetch attempt url)

  unfoldable pub load_oas_file : String → Result OpenApiSpec
  load_oas_file api_permissions_file_path =
      read_file sources.read api_permissions_file_path >>= λ content.
      deserialize_spec content Sentinel.file_load_failed

  -- The loop: an error is tried again.
  unfoldable pub retry_fetch : ℕ → ℕ → String → Option (Result OpenApiSpec)
  retry_fetch zero attempt url = none
  retry_fetch (suc fuel) attempt url =
      let rest = retry_fetch fuel (suc attempt) url in
      elim (fetch_open_api attempt url) [
        | ok oas ↦ some (ok oas)
        | err e ↦ rest
        | panic ↦ some panic
      ]

  unfoldable pub load_oas_from_file_or_network :
      ℕ → EnvironmentVariables → Option (Result OpenApiSpec)
  load_oas_from_file_or_network fuel env =
      if env.api_permissions_file_path == ""
      then (if env.target_service_oas_path == ""
          then some (
              err (
                error_text
                  "missing environment variables one of TARGET_SERVICE_OAS_PATH or API_PERMISSIONS_FILE_PATH is required"))
          else retry_fetch fuel 0 (documentation_url env))
      else some (load_oas_file env.api_permissions_file_path)
