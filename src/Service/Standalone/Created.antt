-- ===== src/Service/Standalone/Created.antt =====
-- What `grantHandler` of service/standalone_apis.go has done when it answers 200.
use rond.Prelude.{
  String, false, not, ◌&&◌, [], ◌∷◌, is_empty, none, some, ok, ◌==◌, ◌≡◌, ◌∙◌, ap, sym, inl, inr,
  Bool-cases, arith,
}
use rond.Prelude.Json.{Json, str, object}
use rond.Http.Writer.{Writer, write}
use rond.Types.{BindingCreateResponse}
use rond.Types.Encoded.{binding_json}
use rond.Utils.Failed.{Succeeds}
use rond.Config.{EnvironmentVariables, get_env, get_env-ok}
use rond.Crudclient
use rond.Service.Standalone.Called.{base_of, HasSent, new_lem, post-HasSent}
use rond.Service.Standalone.Requested.{IsRequested, binding_to_create-IsRequested}
use rond.Service.Standalone.Succeeded.{
  failed-Succeeds, attempt-Succeeds, attempt-encoded, respond-Succeeds,
}
use rond.Service.Standalone.Requests.{Services, StandaloneRequest, GrantRequestBody, decoded}
use rond.Service.Standalone.{respond}
use rond.Service.Standalone.Grant.{grant_valid, grant_checked, grant_handler, binding_to_create}

module _ {W : Type 0} (d : Services W) (r : StandaloneRequest) (w : Writer)
    (untouched : w.status ≡ none) (w₁ : Writer) (succeeds : Succeeds w₁) where
  -- One binding, with a fresh id, has been created, and the answer tells its id.
  abbrev pub IsCreated : EnvironmentVariables → GrantRequestBody → W → W → Type 0
  IsCreated env body world after =
      (posted : Json) × (created : BindingCreateResponse) × (text : String) × IsRequested
        r.resource_type body (d.new_uuid world).0 posted
      × (d.client.new (base_of env.bindings_crud_service_url) ≡ ok tt)
      × HasSent d.client r.proxied env.bindings_crud_service_url "POST" "" (some posted)
          d.decode_created created (d.new_uuid world).1 after
      × (d.marshal (object (("bindingId", str (d.new_uuid world).0) ∷ [])) ≡ ok text)
      × (w₁ ≡ write w text)

  grant_valid-IsCreated :
      (env : EnvironmentVariables) (body : GrantRequestBody) (world after : W)
      → (not (r.resource_type == "") && (body.resource_id == "")) ≡ false
      → grant_valid d r w env body world ≡ (ok w₁, after)
      → IsCreated env body world after
  unfolding grant_valid
  grant_valid-IsCreated env body world after typed h =
      let (crud, connects, h1) =
        attempt-encoded d r w untouched (Crudclient.new d.client env.bindings_crud_service_url)
          world _ _ after w₁ h succeeds in
      let (created, between, posts, h2) =
        attempt-Succeeds d r w untouched
          (decoded d.decode_created
            (Crudclient.post d.client crud r.proxied
              (binding_json (binding_to_create (d.new_uuid world).0 r.resource_type body)))
            (d.new_uuid world).1)
          _
          (λ created.
            respond d r w "failed response body creation"
              (object (("bindingId", str (d.new_uuid world).0) ∷ [])))
          after w₁ h1 succeeds in
      let (text, encoded, q, same) =
        respond-Succeeds d r w untouched w₁ succeeds _ _ between after h2 in
      let (is_client, based) =
        new_lem d.client r.proxied env.bindings_crud_service_url crud connects in
      (
        binding_json (binding_to_create (d.new_uuid world).0 r.resource_type body),
        created,
        text,
        binding_to_create-IsRequested r.resource_type body (d.new_uuid world).0 typed,
        is_client,
        post-HasSent d.client r.proxied env.bindings_crud_service_url crud based d.decode_created
            created (d.new_uuid world).1 after
            (binding_json (binding_to_create (d.new_uuid world).0 r.resource_type body))
            (posts ∙ ap (λ x. (ok created, x)) (sym same)),
        encoded,
        q,
      )

  grant_checked-IsCreated :
      (env : EnvironmentVariables) (body : GrantRequestBody) (world after : W)
      → grant_checked d r w env body world ≡ (ok w₁, after)
      → ((not (r.resource_type == "") && (body.resource_id == "")) ≡ false)
        × ((is_empty body.groups
              && is_empty body.permissions
              && is_empty body.subjects
              && is_empty body.roles)
            ≡ false)
        × IsCreated env body world after
  unfolding grant_checked
  grant_checked-IsCreated env body world after h =
      elim (Bool-cases (not (r.resource_type == "") && (body.resource_id == ""))) [
        | inl e ↦ absurd (
            failed-Succeeds d r w untouched 400 _ world after w₁ (λ x. omega (arith, x)) (rw e at h)
              succeeds)
        | inr e ↦
            elim (Bool-cases (
              is_empty body.groups
              && is_empty body.permissions
              && is_empty body.subjects
              && is_empty body.roles)) [
                | inl f ↦ absurd (
                    failed-Succeeds d r w untouched 400 _ world after w₁ (λ x. omega (arith, x))
                      (rw (e, f) at h) succeeds)
                | inr f ↦ (e, f, grant_valid-IsCreated env body world after e (rw (e, f) at h))
              ]
      ]

-- When `grantHandler` answers 200, on a writer that has sent no status yet, the request is complete,
-- and the handler has made one call, without an error, of the CRUD service of the environment: by
-- POST, and with the headers to proxy, it has sent the binding of the request, under an id drawn
-- before the call, which the answer tells. The binding has the groups, subjects and roles of the
-- request, the resource, if the request has a resource type, and no permissions.
pub grant_handler-IsCreated :
    {W : Type 0} (d : Services W) (r : StandaloneRequest) (w : Writer) (world after : W)
    (w₁ : Writer) (untouched : w.status ≡ none) (succeeds : w₁.status ≡ some 200)
    → grant_handler d r w world ≡ (ok w₁, after)
    → (env : EnvironmentVariables) × (body : GrantRequestBody) × (r.env ≡ some env)
      × (d.decode_grant r.body ≡ ok body)
      × ((not (r.resource_type == "") && (body.resource_id == "")) ≡ false)
      × ((is_empty body.groups
            && is_empty body.permissions
            && is_empty body.subjects
            && is_empty body.roles)
          ≡ false)
      × IsCreated d r w untouched w₁ succeeds env body world after
unfolding grant_handler
grant_handler-IsCreated d r w world after w₁ untouched succeeds h =
    let (env, p, h1) =
      attempt-encoded d r w untouched (get_env r.env) world (λ e. e.message) _ after w₁ h
        succeeds in
    let (body, q, h2) =
      attempt-encoded d r w untouched (d.decode_grant r.body) world (λ e. e.message) _ after w₁ h1
        succeeds in
    let (typed, named, created) =
      grant_checked-IsCreated d r w untouched w₁ succeeds env body world after h2 in
    (env, body, get_env-ok r.env env p, q, typed, named, created)
