-- ===== src/Service/Standalone/Requests.antt =====
-- What the handlers of service/standalone_apis.go are given, and how they go on after a call.
use rond.Prelude.{ℕ, String, List, Option, Result, ok, err, panic, GoError}
use rond.Prelude.Json.{Json, Marshal}
use rond.Http.Header.{Header}
use rond.Http.Writer.{Writer}
use rond.Types.{Binding, BindingCreateResponse}
use rond.Utils.{Lo}
use rond.Config.{EnvironmentVariables}
use rond.Crudclient.{JsonClient, Call}
use rond.Service.Revoke.{RevokeRequestBody}

pub record GrantRequestBody : Type 0 where
  pub resource_id : String
  pub subjects : List String
  pub groups : List String
  pub roles : List String
  pub permissions : List String

-- The decoders are those of `encoding/json` at the types that the handlers pass.
pub record Services (W : Type 0) : Type 1 where
  pub lo : Lo
  pub client : JsonClient W
  pub marshal : Marshal
  pub decode_revoke : String → Result RevokeRequestBody
  pub decode_grant : String → Result GrantRequestBody
  pub decode_bindings : Json → Result (List Binding)
  pub decode_count : Json → Result ℕ
  pub decode_created : Json → Result BindingCreateResponse
  pub new_uuid : W → String × W

-- The request's context, its body and the path variable `resourceType` (empty where there is none).
pub record StandaloneRequest : Type 0 where
  pub env : Option EnvironmentVariables
  pub proxied : Option Header
  pub resource_type : String
  pub body : String

-- A handler's run: the response, or a panic, and the world after it.
abbrev pub Served : Type 0 → Type 0
Served W = W → Result Writer × W

-- `if err != nil { ...; return }`, and the code behind it.
abbrev pub attempt {ℓ} :
    {A : Type ℓ} {W : Type 0}
    → Result A × W
    → (GoError → Served W)
    → (A → Served W)
    → Result Writer × W
attempt (ok a, world) failure next = next a world
attempt (err e, world) failure next = failure e world
attempt (panic, world) failure next = (panic, world)

abbrev pub and_decode : {A W : Type 0} → (Json → Result A) → Result Json × W → Result A × W
and_decode decode (ok j, world) = (decode j, world)
and_decode decode (err e, world) = (err e, world)
and_decode decode (panic, world) = (panic, world)

-- The response of a call, read at the type of the variable that it is to fill.
abbrev pub decoded : {A W : Type 0} → (Json → Result A) → Call W Json → Call W A
decoded decode call world = and_decode decode (call world)
