-- ===== src/Tests/Startup.antt =====
-- The environment, the headers to proxy, sanitized texts and the shutdown.
use rond.Prelude.{
  String, ◌&&◌, ◌||◌, not, [], ◌∷◌, ok, ◌≡◌, ◌≢◌, ◌↔◌, arith, eq_iff, elem, ◌==◌, if◌then◌else◌,
  map,
}
use rond.Prelude.Text.{split}
use rond.Http.Header.{Header, canonical, get}
use rond.Config.{get_env_or_die, extra_headers_keys, get_additional_headers_to_proxy}
use rond.Config.Startup.{IsUsable, get_env_or_die_iff}
use rond.Config.ExtraHeaders.{get_additional_headers_to_proxy_lem}
use rond.Helpers.{add_headers_to_proxy, set_headers_to_proxy}
use rond.Helpers.HeadersToProxy.{set_headers_to_proxy_lem}
use rond.Tests.Fixtures.{env}

get_env_or_die_iff_example : (get_env_or_die (ok env) ≡ ok env) ↔ ((ok env ≡ ok env) × IsUsable env)
get_env_or_die_iff_example = get_env_or_die_iff (ok env) env

custom-ne-empty : ◌≢◌ {A = String} "miauserid" ""
custom-ne-empty = ground (arith, eq_iff "miauserid" "")

get_additional_headers_to_proxy_lem_example :
    elem "x-request-id" (get_additional_headers_to_proxy env)
    ≡ (elem "x-request-id" (split b',' "miauserid") || elem "x-request-id" extra_headers_keys)
get_additional_headers_to_proxy_lem_example =
    get_additional_headers_to_proxy_lem env "x-request-id" custom-ne-empty

abbrev request_headers : Header
request_headers = ("Miauserid", "u1" ∷ []) ∷ []

set_headers_to_proxy_lem_example :
    get
      (set_headers_to_proxy (add_headers_to_proxy ("miauserid" ∷ []) request_headers) [])
      "MiaUserId"
    ≡ (if elem (canonical "MiaUserId") (map canonical ("miauserid" ∷ []))
          && not (get request_headers "MiaUserId" == "")
        then get request_headers "MiaUserId"
        else get [] "MiaUserId")
set_headers_to_proxy_lem_example =
    set_headers_to_proxy_lem ("miauserid" ∷ []) request_headers [] "MiaUserId"
