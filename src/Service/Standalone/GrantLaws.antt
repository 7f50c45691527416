-- ===== src/Service/Standalone/GrantLaws.antt =====
-- What `grantHandler` of service/standalone_apis.go does with the permissions that a request
-- asks for.
use rond.Prelude.{
  String, not, ◌&&◌, true, false, List, is_empty, some, ok, ◌≡◌, ◌⊎◌, sym, ap, ◌∙◌, Bool, inl, inr,
  arith,
}
use rond.Http.Writer.{Writer}
use rond.Config.{EnvironmentVariables, get_env}
use rond.Service.Standalone.Requests.{Services, StandaloneRequest, GrantRequestBody, Served}
use rond.Service.Standalone.{failed, respond}
use rond.Service.Standalone.Grant.{grant_valid, grant_checked, grant_handler, binding_to_create}

module _ {W : Type 0} (d : Services W) (r : StandaloneRequest) (w : Writer)
    (env : EnvironmentVariables) (body : GrantRequestBody) (here : r.env ≡ some env)
    (read : d.decode_grant r.body ≡ ok body) where
  grant_handler_lem : (world : W) → grant_handler d r w world ≡ grant_checked d r w env body world
  unfolding grant_handler get_env
  grant_handler_lem world = rw (here, read)

-- A body that names a group, a subject or a role.
abbrev pub names_someone : GrantRequestBody → Bool
names_someone body = not (is_empty body.groups && is_empty body.subjects && is_empty body.roles)

not_blank : (g p s ro : Bool) → not (g && s && ro) ≡ true → (g && p && s && ro) ≡ false
not_blank g p s ro h = ground arith

abbrev with_permissions : GrantRequestBody → List String → GrantRequestBody
with_permissions body ps = record body { permissions = ps }

abbrev with_body : StandaloneRequest → String → StandaloneRequest
with_body r text = record r { body = text }

module _ {W : Type 0} (d : Services W) (r : StandaloneRequest) (w : Writer)
    (env : EnvironmentVariables) (body : GrantRequestBody) (ps : List String) (text : String) where
  grant_checked-ignores_permissions :
      (names_someone body ≡ true) ⊎ ((is_empty body.permissions ≡ false) × (is_empty ps ≡ false))
      → grant_checked d r w env body
        ≡ grant_checked d (with_body r text) w env (with_permissions body ps)
  unfolding grant_checked grant_valid binding_to_create failed respond
  grant_checked-ignores_permissions (inl h) = rw (
    not_blank (is_empty body.groups) (is_empty body.permissions) (is_empty body.subjects)
        (is_empty body.roles) h,
    not_blank (is_empty body.groups) (is_empty ps) (is_empty body.subjects) (is_empty body.roles) h,
  )
  grant_checked-ignores_permissions (inr h) = rw (h.0, h.1)

-- Two requests whose bodies differ in the permissions alone get the same response and have the
-- same effect, if the body names a group, a subject or a role, or if both ask for permissions: the
-- binding that is created never has the permissions asked for.
pub grant_handler-ignores_permissions :
    {W : Type 0} (d : Services W) (r : StandaloneRequest) (w : Writer) (env : EnvironmentVariables)
    (body : GrantRequestBody) (permissions : List String) (text : String) (world : W)
    → r.env ≡ some env
    → d.decode_grant r.body ≡ ok body
    → d.decode_grant text ≡ ok (with_permissions body permissions)
    → (names_someone body ≡ true)
      ⊎ ((is_empty body.permissions ≡ false) × (is_empty permissions ≡ false))
    → grant_handler d r w world ≡ grant_handler d (with_body r text) w world
grant_handler-ignores_permissions {W} d r w env body permissions text world here read read' h =
    grant_handler_lem d r w env body here read world
    ∙ ap (λ (run : Served W). run world)
        (grant_checked-ignores_permissions d r w env body permissions text h)
    ∙ sym (
        grant_handler_lem d (with_body r text) w env (with_permissions body permissions) here read'
          world)
