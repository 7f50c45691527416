-- ===== src/Types/Encoded.antt =====
-- The JSON form of a binding, by the tags of types/rbactypes.go.
use rond.Prelude.{String, List, [], ◌∷◌, ◌++◌, is_empty, Option, none, some, if◌then◌else◌, ◌==◌}
use rond.Prelude.Json.{Json, str, object, strings}
use rond.Types.{Binding, Resource}

-- `omitempty` of the JSON tags.
abbrev pub text_field : String → String → List (String × Json)
text_field key value = if value == "" then [] else (key, str value) ∷ []

abbrev pub list_field : String → List String → List (String × Json)
list_field key values = if is_empty values then [] else (key, strings values) ∷ []

abbrev pub resource_field : Option Resource → List (String × Json)
resource_field none = []
resource_field (some r) =
    (
      "resource",
      object (text_field "resourceType" r.resource_type ++ text_field "resourceId" r.resource_id),
    )
    ∷ []

-- The JSON form of types.Binding; the state is not part of it.
unfoldable pub binding_json : Binding → Json
binding_json b = object (
    resource_field b.resource
    ++ (("bindingId", str b.binding_id)
        ∷ (list_field "groups" b.groups
            ++ (list_field "subjects" b.subjects
                ++ (list_field "permissions" b.permissions ++ list_field "roles" b.roles)))))
