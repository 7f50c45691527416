-- ===== src/Service/Standalone/Grant.antt =====
-- `grantHandler` of service/standalone_apis.go.
use rond.Prelude.{String, not, ◌&&◌, [], ◌∷◌, is_empty, none, some, if◌then◌else◌, ◌==◌}
use rond.Prelude.Json.{str, object}
use rond.Http.Writer.{Writer}
use rond.Types.{Binding}
use rond.Types.Encoded.{binding_json}
use rond.Config.{EnvironmentVariables, get_env}
use rond.Crudclient
use rond.Service.Standalone.Requests.{
  Services, StandaloneRequest, GrantRequestBody, Served, attempt, decoded,
}
use rond.Service.Standalone.{failed, respond}

-- The binding that the handler creates: its `Permissions` are never filled.
unfoldable pub binding_to_create : String → String → GrantRequestBody → Binding
binding_to_create binding_id resource_type body = record {
  resource =
      if resource_type == ""
      then none
      else some (record { resource_type = resource_type; resource_id = body.resource_id });
  binding_id = binding_id;
  crud_document_state = "";
  groups = body.groups;
  subjects = body.subjects;
  permissions = [];
  roles = body.roles;
}

module _ {W : Type 0} (d : Services W) (r : StandaloneRequest) (w : Writer) where
  unfoldable pub grant_valid : EnvironmentVariables → GrantRequestBody → Served W
  grant_valid env body world =
      attempt (Crudclient.new d.client env.bindings_crud_service_url, world)
        (λ e. failed d r w 500 e.message)
        (λ crud world'.
          let (binding_id, world'') = d.new_uuid world' in
          attempt
            (decoded d.decode_created
              (Crudclient.post d.client crud r.proxied
                (binding_json (binding_to_create binding_id r.resource_type body)))
              world'')
            (λ e. failed d r w 500 "failed crud request for creating bindings")
            (λ created.
              respond d r w "failed response body creation"
                (object (("bindingId", str binding_id) ∷ []))))

  unfoldable pub grant_checked : EnvironmentVariables → GrantRequestBody → Served W
  grant_checked env body =
      if not (r.resource_type == "") && (body.resource_id == "")
      then failed d r w 400 "missing resource id"
      else if is_empty body.groups
          && is_empty body.permissions
          && is_empty body.subjects
          && is_empty body.roles
      then failed d r w 400
          "missing body fields, one of groups, permissions, subjects or roles is required"
      else grant_valid env body

  unfoldable pub grant_handler : Served W
  grant_handler world =
      attempt (get_env r.env, world) (λ e. failed d r w 500 e.message)
        (λ env world'.
          attempt (d.decode_grant r.body, world') (λ e. failed d r w 500 e.message)
            (λ body. grant_checked env body))
