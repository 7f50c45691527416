-- ===== src/Crudclient.antt =====
-- internal/crudclient/crudclient.go, over github.com/davidebianchi/go-jsonclient, a parameter.
-- A call changes the world `W`, the CRUD service included.
use rond.Prelude.{String, Option, none, some, Result, ok, err, panic}
use rond.Prelude.Text.{◌⧺◌, trim_suffix}
use rond.Prelude.Json.{Json}
use rond.Http.Header.{Header}
use rond.Helpers.{set_headers_to_proxy}

pub record OutRequest : Type 0 where
  pub base_url : String
  pub method : String
  pub path : String
  pub body : Option Json
  pub header : Header

-- The JSON client: `New` with a base URL, `NewRequestWithContext` and `Do`, which also decodes the
-- response at the type that the caller wants.
pub record JsonClient (W : Type 0) : Type 1 where
  pub new : String → Result (Unit {0})
  pub new_request : String → String → String → Option Json → Result OutRequest
  pub do_json : OutRequest → W → Result Json × W

-- A computation that may call a service.
abbrev pub Call : Type 0 → Type 0 → Type 0
Call W A = W → Result A × W

-- `Crud`: a client of one URL.
pub record Crud : Type 0 where
  pub base_url : String

module _ {W : Type 0} (client : JsonClient W) where
  unfoldable pub new : String → Result Crud
  new api_url =
      let base_url = trim_suffix api_url b'/' ⧺ "/" in
      elim (client.new base_url) [
        | ok _ ↦ ok (record { base_url = base_url })
        | err e ↦ err e
        | panic ↦ panic
      ]

  -- The request is built, given the headers to proxy, and sent.
  unfoldable pub send : Option Header → Result OutRequest → Call W Json
  send proxied (err e) w = (err e, w)
  send proxied panic w = (panic, w)
  send proxied (ok req) w =
      client.do_json (record req { header = set_headers_to_proxy proxied req.header }) w

  unfoldable pub get : Crud → Option Header → String → Call W Json
  get crud proxied query_param =
      send proxied (client.new_request crud.base_url "GET" ("?" ⧺ query_param) none)

  unfoldable pub post : Crud → Option Header → Json → Call W Json
  post crud proxied body = send proxied (client.new_request crud.base_url "POST" "" (some body))

  unfoldable pub delete : Crud → Option Header → String → Call W Json
  delete crud proxied query_param =
      send proxied (client.new_request crud.base_url "DELETE" ("?" ⧺ query_param) none)

  unfoldable pub patch_bulk : Crud → Option Header → Json → Call W Json
  patch_bulk crud proxied request_body =
      send proxied (client.new_request crud.base_url "PATCH" "" (some request_body))

  unfoldable pub is_healthy : Crud → Option Header → Call W Json
  is_healthy crud proxied = send proxied (client.new_request crud.base_url "GET" "/-/healthz" none)
