-- ===== src/Service/Revoke.antt =====
-- `prepareBindings` and the request bodies of service/standalone_apis.go that revoke bindings.
pub mod Prepared
use rond.Prelude.{String, ◌&&◌, List, [], ◌∷◌, ◌++◌, map, is_empty, if◌then◌else◌, ◌==◌}
use rond.Prelude.Json.{Json, str, arr, object, single, array, strings}
use rond.Types.{Binding, BindingFilter, BindingUpdate}
use rond.Utils.{Lo, filter_list}

pub record RevokeRequestBody : Type 0 where
  pub subjects : List String
  pub groups : List String
  pub resource_ids : List String

-- The binding without the revoked subjects and groups. A nil result of the filter and an empty
-- one are one list here.
unfoldable pub strip : Lo → RevokeRequestBody → Binding → Binding
strip lo req_body binding = record binding {
  groups = filter_list lo binding.groups req_body.groups;
  subjects = filter_list lo binding.subjects req_body.subjects;
}

unfoldable pub prepare_from :
    Lo
    → RevokeRequestBody
    → List Binding
    → List Binding
    → List Binding
    → List Binding × List Binding
prepare_from lo req_body binding_to_patch binding_to_delete [] =
    (binding_to_patch, binding_to_delete)
prepare_from lo req_body binding_to_patch binding_to_delete (b ∷ bindings) =
    let binding = strip lo req_body b in
    let unused = is_empty binding.subjects && is_empty binding.groups in
    prepare_from lo req_body (if unused then binding_to_patch else binding_to_patch ++ binding ∷ [])
      (if unused then binding_to_delete ++ binding ∷ [] else binding_to_delete) bindings

-- Which bindings are patched, and which are deleted.
unfoldable pub prepare_bindings :
    Lo → List Binding → RevokeRequestBody → List Binding × List Binding
prepare_bindings lo bindings req_body = prepare_from lo req_body [] [] bindings

abbrev pub in_query : String → List String → Json
in_query key values = single key (single "$in" (strings values))

unfoldable pub subject_or_groups : List String → List String → List Json
subject_or_groups subjects groups =
    (if is_empty subjects then [] else in_query "subjects" subjects ∷ [])
    ++ (if is_empty groups then [] else in_query "groups" groups ∷ [])

-- `buildQuery`, before it is encoded.
unfoldable pub build_query : String → List String → List String → List String → Json
build_query resource_type resource_ids subjects groups =
    let query_part = single "$or" (array (subject_or_groups subjects groups)) in
    if resource_type == ""
    then query_part
    else single "$and" (
        array (
          object (
            ("resource.resourceType", str resource_type)
            ∷ ("resource.resourceId", single "$in" (strings resource_ids))
            ∷ [])
          ∷ query_part
          ∷ []))

-- `buildQueryForBindingsToDelete`
unfoldable pub build_query_for_bindings_to_delete : List Binding → Json
build_query_for_bindings_to_delete bindings_to_delete =
    in_query "bindingId" (map (λ b. b.binding_id) bindings_to_delete)

pub record PatchItem : Type 0 where
  pub filter : BindingFilter
  pub update : BindingUpdate

-- `buildRequestBodyForBindingsToPatch`
unfoldable pub build_request_body_for_bindings_to_patch : List Binding → List PatchItem
build_request_body_for_bindings_to_patch bindings_to_patch =
    map
      (λ b. record {
        filter = record { binding_id = b.binding_id };
        update = record { groups = b.groups; subjects = b.subjects };
      })
      bindings_to_patch
