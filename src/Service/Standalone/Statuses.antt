-- ===== src/Service/Standalone/Statuses.antt =====
-- The statuses of service/standalone_apis.go behind its checks of a request: none is 400.
use rond.Prelude.{
  ℕ, String, none, some, Result, ok, err, panic, GoError, ◌≡◌, ◌⊎◌, inl, inr, refl, sym, ap, ◌∙◌,
  Result-cases, arith, some-injective,
}
use rond.Prelude.Json.{Json}
use rond.Http.Writer.{Writer, write, or_status}
use rond.Utils.{generic_business_error_message}
use rond.Utils.Failed.{status-fail_response_with_code}
use rond.Prelude.{List, [], ◌∷◌}
use rond.Prelude.Text.{◌⧺◌, itoa}
use rond.Types.{Binding}
use rond.Types.Encoded.{binding_json}
use rond.Config.{EnvironmentVariables}
use rond.Crudclient.{Crud}
use rond.Crudclient
use rond.Service.Revoke.{
  RevokeRequestBody, prepare_bindings, build_query, build_query_for_bindings_to_delete,
  build_request_body_for_bindings_to_patch,
}
use rond.Service.Standalone.Requests.{
  Services, StandaloneRequest, GrantRequestBody, Served, attempt, decoded,
}
use rond.Service.Standalone.{
  failed, respond, bindings_max_page_size, patch_items_json, revoke_respond, revoke_patch,
  revoke_delete, revoke_valid,
}
use rond.Service.Standalone.Grant.{grant_valid, binding_to_create}

abbrev pub IsServed : Writer → Type 0
IsServed w = (w.status ≡ some 200) ⊎ (w.status ≡ some 500)

pub IsServed-other : (w : Writer) → IsServed w → w.status ≡ some 400 → ⊥
IsServed-other w (inl e) s = let k = some-injective (sym e ∙ s) in omega (arith, k)
IsServed-other w (inr e) s = let k = some-injective (sym e ∙ s) in omega (arith, k)

written : {W : Type 0} → Writer → Result Writer × W → Writer
written w (ok w₁, world) = w₁
written w (err e, world) = w
written w (panic, world) = w

module _ {W : Type 0} (d : Services W) (r : StandaloneRequest) (w : Writer)
    (untouched : w.status ≡ none) (w₁ : Writer) (after : W) where
  pub status-failed :
      (code : ℕ) (technical : String) (world : W)
      → failed d r w code technical world ≡ (ok w₁, after)
      → w₁.status ≡ some code
  unfolding failed written
  status-failed code technical world h =
      ap (λ x. x.status) (sym (ap (written w) h))
      ∙ status-fail_response_with_code d.marshal w code technical generic_business_error_message
          untouched

  pub respond-IsServed :
      (failure : String) (body : Json) (world : W)
      → respond d r w failure body world ≡ (ok w₁, after)
      → IsServed w₁
  unfolding respond written write
  respond-IsServed failure body world h = elim (Result-cases (d.marshal body)) [
    | inl (text, e) ↦ inl (
        ap (λ x. x.status) (sym (ap (written w) (rw (e, respond) at h)))
        ∙ ap (λ o. or_status o 200) untouched)
    | inr (inl (x, e)) ↦ inr (
        ap (λ x. x.status) (sym (ap (written w) (rw (e, respond) at h)))
        ∙ ap (λ o. or_status o 200)
            (status-fail_response_with_code d.marshal w 500 failure generic_business_error_message
              untouched))
    | inr (inr e) ↦ let k = rw (e, respond) at h in cc
  ]

  pub attempt-IsServed :
      {A : Type 0} (m : Result A × W) (technical : GoError → String) (next : A → Served W)
      → attempt m (λ e. failed d r w 500 (technical e)) next ≡ (ok w₁, after)
      → ((a : A) (world : W) → next a world ≡ (ok w₁, after) → IsServed w₁)
      → IsServed w₁
  attempt-IsServed (ok a, world) technical next h served = served a world h
  attempt-IsServed (err e, world) technical next h served =
      inr (status-failed 500 (technical e) world h)
  attempt-IsServed (panic, world) technical next h served = cc

  -- A step behind which the answer is 400 has succeeded.
  pub attempt-refused :
      {A : Type 0} (m : Result A) (world : W) (technical : GoError → String) (next : A → Served W)
      → attempt (m, world) (λ e. failed d r w 500 (technical e)) next ≡ (ok w₁, after)
      → w₁.status ≡ some 400
      → (a : A) × (m ≡ ok a) × (next a world ≡ (ok w₁, after))
  attempt-refused (ok a) world technical next h s = (a, refl, h)
  attempt-refused (err e) world technical next h s =
      absurd (IsServed-other w₁ (inr (status-failed 500 (technical e) world h)) s)
  attempt-refused panic world technical next h s = cc

  revoke_patch-IsServed :
      (crud : Crud) (bindings : List Binding) (deleted : ℕ) (world : W)
      → revoke_patch d r w crud bindings deleted world ≡ (ok w₁, after)
      → IsServed w₁
  unfolding revoke_patch revoke_respond
  revoke_patch-IsServed crud [] deleted world h = respond-IsServed _ _ world h
  revoke_patch-IsServed crud (b ∷ bs) deleted world h =
      attempt-IsServed
        (decoded d.decode_count
          (Crudclient.patch_bulk d.client crud r.proxied
            (patch_items_json (build_request_body_for_bindings_to_patch (b ∷ bs))))
          world)
        _ _ h (λ m world' k. respond-IsServed _ _ world' k)

  revoke_delete-IsServed :
      (crud : Crud) (to_patch to_delete : List Binding) (world : W)
      → revoke_delete d r w crud to_patch to_delete world ≡ (ok w₁, after)
      → IsServed w₁
  unfolding revoke_delete
  revoke_delete-IsServed crud to_patch [] world h = revoke_patch-IsServed crud to_patch 0 world h
  revoke_delete-IsServed crud to_patch (b ∷ bs) world h =
      attempt-IsServed (d.marshal (build_query_for_bindings_to_delete (b ∷ bs)), world) _ _ h
        (λ q world' k.
          attempt-IsServed
            (decoded d.decode_count (Crudclient.delete d.client crud r.proxied ("_q=" ⧺ q)) world')
            _ _ k (λ n world'' k'. revoke_patch-IsServed crud to_patch n world'' k'))

  pub revoke_valid-IsServed :
      (env : EnvironmentVariables) (body : RevokeRequestBody) (world : W)
      → revoke_valid d r w env body world ≡ (ok w₁, after)
      → IsServed w₁
  unfolding revoke_valid
  revoke_valid-IsServed env body world h =
      attempt-IsServed (Crudclient.new d.client env.bindings_crud_service_url, world) _ _ h
        (λ crud world' k.
          attempt-IsServed
            (
              d.marshal (build_query r.resource_type body.resource_ids body.subjects body.groups),
              world',
            )
            _ _ k
            (λ q world'' k'.
              attempt-IsServed
                (decoded d.decode_bindings
                  (Crudclient.get d.client crud r.proxied
                    ("_q=" ⧺ q ⧺ "&_l=" ⧺ itoa bindings_max_page_size))
                  world'')
                _ _ k'
                (λ bs found k3.
                  revoke_delete-IsServed crud (prepare_bindings d.lo bs body).0
                    (prepare_bindings d.lo bs body).1 found k3)))

  pub grant_valid-IsServed :
      (env : EnvironmentVariables) (body : GrantRequestBody) (world : W)
      → grant_valid d r w env body world ≡ (ok w₁, after)
      → IsServed w₁
  unfolding grant_valid
  grant_valid-IsServed env body world h =
      attempt-IsServed (Crudclient.new d.client env.bindings_crud_service_url, world) _ _ h
        (λ crud world' k.
          attempt-IsServed
            (decoded d.decode_created
              (Crudclient.post d.client crud r.proxied
                (binding_json (binding_to_create (d.new_uuid world').0 r.resource_type body)))
              (d.new_uuid world').1)
            _ _ k (λ c between k'. respond-IsServed _ _ between k'))
