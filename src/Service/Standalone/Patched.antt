-- ===== src/Service/Standalone/Patched.antt =====
-- The changes of bindings that `revokeHandler` of service/standalone_apis.go sends.
use rond.Prelude.{List, [], ◌∷◌, map, ◌≡◌, refl, ap}
use rond.Prelude.Json.{Json, str, object, array, strings, arr, item}
use rond.Types.{Binding}
use rond.Service.Revoke.{build_request_body_for_bindings_to_patch}
use rond.Service.Standalone.{patch_items_json}

-- The change of one binding: its groups and subjects are set to those that are left.
abbrev pub patch_of : Binding → Json
patch_of b = object (
    ("filter", object (("bindingId", str b.binding_id) ∷ []))
    ∷ (
      "update",
      object (
          ("$set", object (("groups", strings b.groups) ∷ ("subjects", strings b.subjects) ∷ []))
          ∷ []),
    )
    ∷ [])

pub patch_items_json-lem :
    (bindings : List Binding)
    → patch_items_json (build_request_body_for_bindings_to_patch bindings)
      ≡ array (map patch_of bindings)
unfolding patch_items_json build_request_body_for_bindings_to_patch
patch_items_json-lem [] = refl
patch_items_json-lem (b ∷ bindings) =
    ap (λ x. then_item (patch_of b) x) (patch_items_json-lem bindings)
  where
    then_item : Json → Json → Json
    then_item first (arr rest) = arr (item first rest)
    then_item first j = j
