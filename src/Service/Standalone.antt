-- ===== src/Service/Standalone.antt =====
-- `revokeHandler` and `grantHandler` of service/standalone_apis.go. What they call is a parameter:
-- the JSON client, the codec of `encoding/json` at the types used, and the generator of ids.
pub mod Requests
pub mod Grant
pub mod GrantLaws
pub mod Succeeded
pub mod Called
pub mod Queried
pub mod Requested
pub mod Patched
pub mod Statuses
pub mod Incomplete
pub mod Revoked
pub mod Created
use rond.Prelude.{
  ℕ, String, not, ◌&&◌, List, [], ◌∷◌, map, is_empty, Option, none, some, Result, ok, err, panic,
  GoError, if◌then◌else◌, ◌==◌, Bool, true, false,
}
use rond.Prelude.Text.{◌⧺◌, itoa}
use rond.Prelude.Json.{Json, int, str, object, single, array, strings, Marshal}
use rond.Http.Header.{Header}
use rond.Http.Writer.{Writer, write}
use rond.Types.{Binding}
use rond.Utils.{Lo, generic_business_error_message, fail_response_with_code}
use rond.Config.{EnvironmentVariables, get_env}
use rond.Crudclient.{Crud, Call}
use rond.Crudclient
use rond.Service.Revoke.{
  RevokeRequestBody, PatchItem, prepare_bindings, build_query, build_query_for_bindings_to_delete,
  build_request_body_for_bindings_to_patch,
}
use Requests.{Services, StandaloneRequest, Served, attempt, decoded}

abbrev pub bindings_max_page_size : ℕ
bindings_max_page_size = 200

unfoldable pub patch_items_json : List PatchItem → Json
patch_items_json items = array (
    map
      (λ i. object (
        ("filter", single "bindingId" (str i.filter.binding_id))
        ∷ (
          "update",
          single "$set" (
              object (
                ("groups", strings i.update.groups)
                ∷ ("subjects", strings i.update.subjects)
                ∷ [])),
        )
        ∷ []))
      items)

module _ {W : Type 0} (d : Services W) (r : StandaloneRequest) (w : Writer) where
  -- An error response with the business message that all of them have.
  unfoldable pub failed : ℕ → String → Served W
  failed code technical world = (
    ok (fail_response_with_code d.marshal w code technical generic_business_error_message),
    world,
  )

  -- A body that cannot be encoded is reported, and then written all the same, empty.
  unfoldable pub respond : String → Json → Served W
  respond failure body world = elim (d.marshal body) [
    | ok bytes ↦ (ok (write w bytes), world)
    | err e ↦ (
      ok (
          write (fail_response_with_code d.marshal w 500 failure generic_business_error_message)
            ""),
      world,
    )
    | panic ↦ (panic, world)
  ]

  unfoldable pub revoke_respond : ℕ → ℕ → Served W
  revoke_respond deleted modified =
      respond
        ("failed response body creation. removed bindings: "
          ⧺ itoa deleted
          ⧺ ", modified bindings: "
          ⧺ itoa modified)
        (object (("deletedBindings", int deleted) ∷ ("modifiedBindings", int modified) ∷ []))

  -- The bindings to patch are sent after those to delete are gone.
  unfoldable pub revoke_patch : Crud → List Binding → ℕ → Served W
  revoke_patch crud bindings_to_patch deleted world =
      if is_empty bindings_to_patch
      then revoke_respond deleted 0 world
      else attempt
          (decoded d.decode_count
            (Crudclient.patch_bulk d.client crud r.proxied
              (patch_items_json (build_request_body_for_bindings_to_patch bindings_to_patch)))
            world)
          (λ e.
            failed 500 (
              "failed crud request to modify existing bindings. removed bindings: " ⧺ itoa deleted))
          (λ modified. revoke_respond deleted modified)

  unfoldable pub revoke_delete : Crud → List Binding → List Binding → Served W
  revoke_delete crud bindings_to_patch bindings_to_delete world =
      if is_empty bindings_to_delete
      then revoke_patch crud bindings_to_patch 0 world
      else attempt (d.marshal (build_query_for_bindings_to_delete bindings_to_delete), world)
          (λ e. failed 500 "failed delete query crud setup")
          (λ query world'.
            attempt
              (decoded d.decode_count (Crudclient.delete d.client crud r.proxied ("_q=" ⧺ query))
                world')
              (λ e. failed 500 "failed crud request for deleting unused bindings")
              (λ deleted. revoke_patch crud bindings_to_patch deleted))

  -- From a request that is complete: the bindings are looked up, split, deleted and patched.
  unfoldable pub revoke_valid : EnvironmentVariables → RevokeRequestBody → Served W
  revoke_valid env body world =
      attempt (Crudclient.new d.client env.bindings_crud_service_url, world)
        (λ e. failed 500 e.message)
        (λ crud world'.
          attempt
            (
              d.marshal (build_query r.resource_type body.resource_ids body.subjects body.groups),
              world',
            )
            (λ e. failed 500 "failed find query crud setup")
            (λ query world''.
              attempt
                (decoded d.decode_bindings
                  (Crudclient.get d.client crud r.proxied
                    ("_q=" ⧺ query ⧺ "&_l=" ⧺ itoa bindings_max_page_size))
                  world'')
                (λ e. failed 500 "failed crud request for finding bindings")
                (λ bindings.
                  let (to_patch, to_delete) = prepare_bindings d.lo bindings body in
                  revoke_delete crud to_patch to_delete)))

  unfoldable pub revoke_checked : EnvironmentVariables → RevokeRequestBody → Served W
  revoke_checked env body =
      if not (r.resource_type == "") && is_empty body.resource_ids
      then failed 400 "empty resources list"
      else if is_empty body.subjects && is_empty body.groups
      then failed 400 "empty subjects and groups lists"
      else revoke_valid env body

  unfoldable pub revoke_handler : Served W
  revoke_handler world =
      attempt (get_env r.env, world) (λ e. failed 500 e.message)
        (λ env world'.
          attempt (d.decode_revoke r.body, world') (λ e. failed 500 e.message)
            (λ body. revoke_checked env body))
