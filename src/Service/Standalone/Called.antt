-- ===== src/Service/Standalone/Called.antt =====
-- What a call of service/standalone_apis.go to the CRUD service sends, once it has given a value.
use rond.Prelude.{
  String, Option, none, some, Result, ok, err, panic, ◌≡◌, ap, sym, Result-cases, inl, inr,
  ok-injective,
}
use rond.Prelude.Text.{◌⧺◌, trim_suffix}
use rond.Prelude.Json.{Json}
use rond.Http.Header.{Header}
use rond.Helpers.{set_headers_to_proxy}
use rond.Crudclient.{Crud, JsonClient, OutRequest, new, send, get, post, delete, patch_bulk}
use rond.Service.Standalone.Requests.{decoded}

-- The URL of the service, with exactly one slash added or kept at its end.
abbrev pub base_of : String → String
base_of url = trim_suffix url b'/' ⧺ "/"

module _ {W : Type 0} (client : JsonClient W) (proxied : Option Header) (url : String) where
  -- A request of the method with the body has been sent to the path behind the URL, with the headers
  -- to proxy, and the answer has been read as the value.
  abbrev pub HasSent :
      {A : Type 0} → String → String → Option Json → (Json → Result A) → A → W → W → Type 0
  HasSent method path body decode value before after =
      (request : OutRequest) × (answer : Json) × (client.new_request (base_of url) method path body
        ≡ ok request)
      × (client.do_json (record request { header = set_headers_to_proxy proxied request.header })
            before
          ≡ (ok answer, after))
      × (decode answer ≡ ok value)

  send-HasSent :
      {A : Type 0} (crud : Crud) (method path : String) (body : Option Json)
      (decode : Json → Result A) (value : A) (before after : W)
      → crud.base_url ≡ base_of url
      → decoded decode
          (send client proxied (client.new_request crud.base_url method path body))
          before
        ≡ (ok value, after)
      → HasSent method path body decode value before after
  unfolding send
  send-HasSent {A} crud method path body decode value before after based h =
      elim (Result-cases (client.new_request crud.base_url method path body)) [
        | inl (request, e) ↦
            let (answer, sent, read) =
              by_answer
                (client.do_json
                  (record request { header = set_headers_to_proxy proxied request.header }) before)
                (rw (e, send) at h) in
            (request, answer, rw based at e, sent, read)
        | inr (inl (x, e)) ↦ let k = rw (e, send) at h in cc
        | inr (inr e) ↦ let k = rw (e, send) at h in cc
      ]
    where
      by_answer :
          (reply : Result Json × W)
          → decoded decode (λ world. reply) before ≡ (ok value, after)
          → (answer : Json) × (reply ≡ (ok answer, after)) × (decode answer ≡ ok value)
      by_answer (ok answer, between) k = (answer, ap (λ x. (ok answer, x.1)) k, ap (λ x. x.0) k)
      by_answer (err x, between) k = let c = ap (λ x. x.0) k in cc
      by_answer (panic, between) k = let c = ap (λ x. x.0) k in cc

  -- A client of the URL.
  pub new_lem :
      (crud : Crud)
      → new client url ≡ ok crud
      → (client.new (base_of url) ≡ ok tt) × (crud.base_url ≡ base_of url)
  unfolding new
  new_lem crud h = elim (Result-cases (client.new (base_of url))) [
    | inl (u, e) ↦ (e, sym (ap (λ c. c.base_url) (ok-injective (rw (e, new) at h))))
    | inr (inl (x, e)) ↦ let k = rw (e, new) at h in cc
    | inr (inr e) ↦ let k = rw (e, new) at h in cc
  ]

  module _ {A : Type 0} (crud : Crud) (based : crud.base_url ≡ base_of url)
      (decode : Json → Result A) (value : A) (before after : W) where
    pub get-HasSent :
        (query : String)
        → decoded decode (get client crud proxied query) before ≡ (ok value, after)
        → HasSent "GET" ("?" ⧺ query) none decode value before after
    unfolding get
    get-HasSent query = send-HasSent crud "GET" _ none decode value before after based

    pub post-HasSent :
        (body : Json)
        → decoded decode (post client crud proxied body) before ≡ (ok value, after)
        → HasSent "POST" "" (some body) decode value before after
    unfolding post
    post-HasSent body = send-HasSent crud "POST" "" (some body) decode value before after based

    pub delete-HasSent :
        (query : String)
        → decoded decode (delete client crud proxied query) before ≡ (ok value, after)
        → HasSent "DELETE" ("?" ⧺ query) none decode value before after
    unfolding delete
    delete-HasSent query = send-HasSent crud "DELETE" _ none decode value before after based

    pub patch_bulk-HasSent :
        (body : Json)
        → decoded decode (patch_bulk client crud proxied body) before ≡ (ok value, after)
        → HasSent "PATCH" "" (some body) decode value before after
    unfolding patch_bulk
    patch_bulk-HasSent body =
        send-HasSent crud "PATCH" "" (some body) decode value before after based
