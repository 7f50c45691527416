-- ===== src/Helpers.antt =====
-- helpers/headers_to_proxy.go and helpers/gracefulshutdown.go.
pub mod HeadersToProxy
pub mod GracefulShutdown
use rond.Prelude.{String, Bool, not, List, [], ◌∷◌, Option, none, some, ◌==◌, if◌then◌else◌}
use rond.Http.Header.{Header, get, set}

-- The loop of `AddHeadersToProxyMiddleware`: the request's headers of the names that are set.
unfoldable pub collect_headers : List String → Header → Header → Header
collect_headers [] request_headers headers_to_proxy = headers_to_proxy
collect_headers (header_name ∷ header_names) request_headers headers_to_proxy =
    let header_value = get request_headers header_name in
    collect_headers header_names request_headers (
      if header_value == ""
      then headers_to_proxy
      else set headers_to_proxy header_name header_value)

-- `AddHeadersToProxyMiddleware`: the context value that the next handler finds.
unfoldable pub add_headers_to_proxy : List String → Header → Option Header
add_headers_to_proxy header_names request_headers =
    some (collect_headers header_names request_headers [])

unfoldable pub set_each : Header → Header → Header → Header
set_each [] headers_to_proxy headers = headers
set_each ((name, _) ∷ rest) headers_to_proxy headers =
    set_each rest headers_to_proxy (set headers name (get headers_to_proxy name))

-- `SetHeadersToProxy`, with the value of the context; an empty one has nothing to set.
unfoldable pub set_headers_to_proxy : Option Header → Header → Header
set_headers_to_proxy none headers = headers
set_headers_to_proxy (some headers_to_proxy) headers =
    set_each headers_to_proxy headers_to_proxy headers
