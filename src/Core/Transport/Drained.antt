-- ===== src/Core/Transport/Drained.antt =====
-- A request whose body the transport below has read.
use rond.Prelude.{
  String, true, false, Option, some, ok, err, GoError, ◌≡◌, inl, inr, ◌==◌, Bool-cases, bind-ok,
}
use rond.Prelude.Json.{Json}
use rond.Http.Request.{Request}
use rond.Types.{User}
use rond.Utils.{Lo}
use rond.Mongo.{explained}
use rond.Core.Evaluators.{Opa}
use rond.Core.Input.{
  Codec, create_rego_query_input, should_parse_json_body, request_body, unmarshal_header,
  permissions_map_of,
}
use rond.Core.Transport.{Response, OpaTransport, is_2xx, round_trip}
use rond.Core.Transport.Overwritten.{round_trip-IsFiltered}

-- Without bytes there is no JSON to read.
request_body-drained :
    (codec : Codec) (req : Request) (e : GoError) (body : Option Json)
    → should_parse_json_body codec req ≡ true
    → codec.unmarshal "" ≡ err e
    → request_body codec (record req { body = ok "" }) ≡ ok body
    → ⊥
unfolding request_body should_parse_json_body
request_body-drained codec req e body json empty h = let k = rw (json, empty) at h in cc

-- If the transport below has read the body of a request whose body is JSON, then no response of the
-- transport to an answer with a status of success and a body has a status of success: the decoder,
-- which gives an error for no bytes at all, finds none when the input of the response policy is made.
pub round_trip-drained :
    {V P : Type 0} (opa : Opa V P) (codec : Codec) (lo : Lo) (t : OpaTransport P) (req : Request)
    (upstream : Response) (bytes : String) (resp : Response) (e : GoError)
    → t.round_tripper req ≡ (ok upstream, ok "")
    → codec.unmarshal "" ≡ err e
    → should_parse_json_body codec t.request ≡ true
    → is_2xx upstream.status_code ≡ true
    → upstream.body ≡ ok bytes
    → (bytes == "") ≡ false
    → round_trip opa codec lo t req ≡ ok resp
    → is_2xx resp.status_code ≡ false
unfolding create_rego_query_input
round_trip-drained opa codec lo t req upstream bytes resp e sent empty json success body some_bytes
      h =
    elim (Bool-cases (is_2xx resp.status_code)) [
      | inl kept ↦
          let (decoded, user, input, evaluator, value, text, d, p, made, _, _, _, _) =
            round_trip-IsFiltered opa codec lo t req upstream (ok "") bytes resp sent success body
              some_bytes h kept in
          absurd (no_input user decoded input made)
      | inr lost ↦ lost
    ]
  where
    left : Request
    left = record t.request { body = ok "" }

    no_input :
        (user : User) (decoded : Json) (input : String)
        → create_rego_query_input codec left t.env
            t.permission.options.enable_resource_permissions_map_optimization user
            (some decoded)
          ≡ ok input
        → ⊥
    no_input user decoded input made =
        let (properties, _, h1) =
          bind-ok
            (explained "user properties header is not valid: "
              (unmarshal_header codec left.header t.env.user_properties_header))
            _ input made in
        let (permissions, _, h2) =
          bind-ok
            (permissions_map_of codec
              t.permission.options.enable_resource_permissions_map_optimization user)
            _ input h1 in
        let (read, r, _) = bind-ok (request_body codec left) _ input h2 in
        request_body-drained codec t.request e read json empty r
