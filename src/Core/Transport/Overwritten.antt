-- ===== src/Core/Transport/Overwritten.antt =====
-- What a response consists of that the transport lets through with a status of success.
use mathlib.Core.Path.{subst}
use rond.Prelude.{
  ok-injective, ℕ, String, true, false, Option, some, Result, ok, err, panic, ◌≡◌, inl, inr, refl,
  ◌==◌, Bool-cases, ◌>>=◌, error_text, bind-ok, ap, ◌∙◌, sym, if◌then◌else◌,
}
use rond.Prelude.Text.{itoa, byte_length}
use rond.Prelude.Json.{Json}
use rond.Http.Header.{get, get-set, canonical}
use rond.Http.Request.{Request}
use rond.Types.{User}
use rond.Utils.{Lo, has_application_json_content_type}
use rond.Mongo.{explained, explained-ok, retrieve_user_bindings_and_roles}
use rond.Core.Evaluators.{Opa, OpaEvaluator, evaluate, get_evaluator_from_policy}
use rond.Core.Input.{Codec, create_rego_query_input}
use rond.Core.Transport.{
  Response, OpaTransport, is_2xx, overwrite_response, overwrite_response_with_status_code,
  response_with_error, or_respond, value_of, filter_response, handle_body, handle_response,
  round_trip,
}

-- The body of the response is the text, and so is its length; all else of it is as upstream.
abbrev pub HasBody : Response → String → Response → Type 0
HasBody upstream text resp =
    (resp.body ≡ ok text)
    × (resp.closed ≡ ok tt)
    × (resp.content_length ≡ byte_length text)
    × (resp.status_code ≡ upstream.status_code)
    × ((name : String)
        → get resp.header name ≡ (
            if canonical "Content-Length" == canonical name
            then itoa (byte_length text)
            else get upstream.header name))

overwrite_response-HasBody :
    (upstream resp : Response) (text : String)
    → overwrite_response upstream text ≡ resp
    → HasBody upstream text resp
unfolding overwrite_response
overwrite_response-HasBody upstream resp text e =
    subst (HasBody upstream text) e
      (refl, refl, refl, refl, λ name. get-set upstream.header "Content-Length" name _)

module _ {V P : Type 0} (opa : Opa V P) (codec : Codec) (lo : Lo) (t : OpaTransport P) where
  -- The response carries the encoded value of an evaluation of the response policy, by its prepared
  -- evaluator, that has accepted; its input is made of the bytes of the answer and of the request as
  -- the transport below has left it.
  abbrev pub IsFiltered : Request → Response → String → Response → Type 0
  IsFiltered req upstream bytes resp =
      (decoded : Json) × (user : User) × (input : String) × (evaluator : OpaEvaluator P)
      × (value : Option Json) × (text : String) × (codec.unmarshal bytes ≡ ok decoded)
      × (retrieve_user_bindings_and_roles lo t.context.mongo req t.env ≡ ok user)
      × (create_rego_query_input codec req t.env
            t.permission.options.enable_resource_permissions_map_optimization user (some decoded)
          ≡ ok input)
      × (get_evaluator_from_policy opa t.partial_results_evaluators t.context
            t.permission.response_flow.policy_name input t.env
          ≡ ok evaluator)
      × (evaluate opa evaluator ≡ ok value)
      × (codec.marshal (value_of opa codec lo t value) ≡ ok text)
      × HasBody upstream text resp

  or_respond-2xx :
      {A : Type 0} (upstream : Response) (code : ℕ) (m : Result A) (f : A → Result Response)
      (resp : Response)
      → or_respond opa codec lo t upstream code m f ≡ ok resp
      → is_2xx resp.status_code ≡ true
      → is_2xx code ≡ false
      → (a : A) × (m ≡ ok a) × (f a ≡ ok resp)
  unfolding response_with_error overwrite_response_with_status_code
  or_respond-2xx upstream code (ok a) f resp h success failure = (a, refl, h)
  or_respond-2xx upstream code (err e) f resp h success failure =
      let k = sym failure ∙ ap (λ x. is_2xx (status_in x)) h ∙ success in cc
    where
      status_in : Result Response → ℕ
      status_in (ok x) = x.status_code
      status_in _ = 0
  or_respond-2xx upstream code panic f resp h success failure = cc

  filter_response-2xx :
      (req : Request) (upstream resp : Response) (bytes : String) (decoded : Json)
      → codec.unmarshal bytes ≡ ok decoded
      → filter_response opa codec lo t req upstream decoded ≡ ok resp
      → is_2xx resp.status_code ≡ true
      → IsFiltered req upstream bytes resp
  unfolding filter_response is_2xx
  filter_response-2xx req upstream resp bytes decoded d h success =
      let (user, p, h1) =
        or_respond-2xx upstream 500 (retrieve_user_bindings_and_roles lo t.context.mongo req t.env)
          _ resp h success refl in
      let (input, q, h2) =
        or_respond-2xx upstream 500
          (create_rego_query_input codec req t.env
            t.permission.options.enable_resource_permissions_map_optimization user (some decoded))
          _ resp h1 success refl in
      let (evaluator, r, h3) =
        or_respond-2xx upstream 500
          (get_evaluator_from_policy opa t.partial_results_evaluators t.context
            t.permission.response_flow.policy_name input t.env)
          _ resp h2 success refl in
      let (value, s, h4) =
        or_respond-2xx upstream 403 (evaluate opa evaluator) _ resp h3 success refl in
      let (text, u, h5) =
        or_respond-2xx upstream 500 (codec.marshal (value_of opa codec lo t value)) _ resp h4
          success refl in
      (
        decoded,
        user,
        input,
        evaluator,
        value,
        text,
        d,
        p,
        q,
        r,
        s,
        u,
        overwrite_response-HasBody upstream resp text (ok-injective h5),
      )

  handle_body-2xx :
      (req : Request) (upstream resp : Response) (bytes : String)
      → handle_body opa codec lo t req upstream bytes ≡ ok resp
      → (bytes == "") ≡ false
      → is_2xx resp.status_code ≡ true
      → IsFiltered req upstream bytes resp
  unfolding handle_body response_with_error overwrite_response_with_status_code is_2xx
  handle_body-2xx req upstream resp bytes h some_bytes success =
      elim (Bool-cases (has_application_json_content_type upstream.header)) [
        | inl e ↦
            let (decoded, p, h1) =
              bind-ok (explained "response body is not valid: " (codec.unmarshal bytes))
                (filter_response opa codec lo t req upstream) resp (rw (some_bytes, e) at h) in
            filter_response-2xx req upstream resp bytes decoded (explained-ok _ _ decoded p) h1
              success
        | inr e ↦
            let (a, p, q) =
              or_respond-2xx {A = Unit {0}} upstream 500
                (err (error_text "content-type is not application/json")) (λ _. panic) resp
                (rw (some_bytes, e) at h) success refl in
            cc
      ]

  handle_response-2xx :
      (req : Request) (upstream resp : Response) (bytes : String)
      → is_2xx upstream.status_code ≡ true
      → upstream.body ≡ ok bytes
      → (bytes == "") ≡ false
      → handle_response opa codec lo t req upstream ≡ ok resp
      → is_2xx resp.status_code ≡ true
      → IsFiltered req upstream bytes resp
  unfolding handle_response
  handle_response-2xx req upstream resp bytes success body some_bytes h kept =
      let (read, p, h1) =
        bind-ok upstream.body
          (λ b. upstream.closed >>= λ _. handle_body opa codec lo t req upstream b) resp
          (rw (success, handle_response) at h) in
      let (_, q, h2) =
        bind-ok upstream.closed (λ _. handle_body opa codec lo t req upstream read) resp h1 in
      subst (λ x. IsFiltered req upstream x resp) (same_text p)
        (handle_body-2xx req upstream resp read h2 (ap (λ s. s == "") (same_text p) ∙ some_bytes)
          kept)
    where
      same_text : {x : String} → upstream.body ≡ ok x → x ≡ bytes
      same_text q = ok-injective (sym q ∙ body)

-- If the target service answers with a status of success and a body, then a response of the
-- transport with a status of success carries only what the response policy gives: its body is the
-- encoded value of an evaluation that has accepted, by the evaluator prepared for that policy, on the
-- input made of the decoded body of the answer, of the request and of its user's bindings and roles,
-- and its length and its header Content-Length are those of this body, its status and every other
-- header being as in the answer.
pub round_trip-IsFiltered :
    {V P : Type 0} (opa : Opa V P) (codec : Codec) (lo : Lo) (t : OpaTransport P) (req : Request)
    (upstream : Response) (left : Result String) (bytes : String) (resp : Response)
    → t.round_tripper req ≡ (ok upstream, left)
    → is_2xx upstream.status_code ≡ true
    → upstream.body ≡ ok bytes
    → (bytes == "") ≡ false
    → round_trip opa codec lo t req ≡ ok resp
    → is_2xx resp.status_code ≡ true
    → IsFiltered opa codec lo t (record t.request { body = left }) upstream bytes resp
unfolding round_trip handle_response
round_trip-IsFiltered opa codec lo t req upstream left bytes resp sent success body some_bytes h
      kept =
    handle_response-2xx opa codec lo t (record t.request { body = left }) upstream resp bytes
      success body some_bytes (rw (sent, round_trip) at h) kept
