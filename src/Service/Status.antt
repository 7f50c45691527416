-- ===== src/Service/Status.antt =====
-- service/statusroutes.go. `Header.Add` on a fresh writer, which these routes have, is `set`.
use rond.Prelude.{String, List, [], ◌∷◌, ok, err, panic}
use rond.Prelude.Json.{Json, str, object, Marshal}
use rond.Http.Header.{set}
use rond.Http.Writer.{Writer, write_header, write}
use rond.Utils.{content_type_header_key, json_content_type_header}

pub record StatusResponse : Type 0 where
  pub status : String
  pub name : String
  pub version : String

abbrev pub status_routes : List String
status_routes = "/-/rbac-healthz" ∷ "/-/rbac-ready" ∷ "/-/rbac-check-up" ∷ []

unfoldable pub status_json : StatusResponse → Json
status_json s =
    object (("status", str s.status) ∷ ("name", str s.name) ∷ ("version", str s.version) ∷ [])

-- `handleStatusRoutes`: the writer, and the body, which is nil after a failed encoding.
unfoldable pub handle_status_routes : Marshal → Writer → String → String → Writer × String
handle_status_routes marshal w service_name service_version =
    let typed = record w {
      header = set w.header content_type_header_key json_content_type_header;
    } in
    elim (marshal
      (status_json (record { status = "OK"; name = service_name; version = service_version }))) [
        | ok body ↦ (typed, body)
        | err e ↦ (write_header typed 503, "")
        | panic ↦ (write_header typed 503, "")
      ]

unfoldable pub handle_status_endpoint : Marshal → String → String → Writer → Writer
handle_status_endpoint marshal service_name service_version w =
    let (answered, body) = handle_status_routes marshal w service_name service_version in
    write answered body
