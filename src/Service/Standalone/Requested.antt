-- ===== src/Service/Standalone/Requested.antt =====
-- The binding that `grantHandler` of service/standalone_apis.go sends, by the fields of its JSON form.
use rond.Prelude.{
  List, ◌++◌, Option, refl, if◌then◌else◌, String, false, not, ◌&&◌, [], ◌∷◌, none, some, ◌==◌, ◌≡◌,
  ◌∙◌, ap, inl, inr, Bool-cases, arith,
}
use rond.Prelude.Json.{Json, str, obj, object, strings, fields, Fields, no_fields, field}
use rond.Types.{Resource}
use rond.Types.Encoded.{binding_json, text_field, list_field, resource_field}
use rond.Service.Standalone.Requests.{GrantRequestBody}
use rond.Service.Standalone.Grant.{binding_to_create}

-- The field of an object.
abbrev pub field_of : String → Fields → Option Json
field_of key no_fields = none
field_of key (field k value rest) = if k == key then some value else field_of key rest

-- A list that is left out when it is empty.
abbrev pub listed_json : List String → Option Json
listed_json [] = none
listed_json names = some (strings names)

-- The binding that is asked for: of the id, with the groups, subjects and roles of the request, on
-- its resource, if it has a type, and with no permissions.
abbrev pub IsRequested : String → GrantRequestBody → String → Json → Type 0
IsRequested resource_type body binding_id posted =
    (fields : Fields) × (posted ≡ obj fields)
    × (field_of "bindingId" fields ≡ some (str binding_id))
    × (field_of "groups" fields ≡ listed_json body.groups)
    × (field_of "subjects" fields ≡ listed_json body.subjects)
    × (field_of "roles" fields ≡ listed_json body.roles)
    × (field_of "permissions" fields ≡ none)
    × (field_of "resource" fields ≡ (
        if resource_type == ""
        then none
        else some (
            object
              (("resourceType", str resource_type) ∷ ("resourceId", str body.resource_id) ∷ []))))

abbrev or_later : Option Json → Option Json → Option Json
or_later none later = later
or_later (some value) later = some value

or_later-none : (found : Option Json) → or_later found none ≡ found
or_later-none none = refl
or_later-none (some value) = refl

field_of-list_field :
    (key k : String) (names : List String) (rest : List (String × Json))
    → field_of key (fields (list_field k names ++ rest)) ≡ (
        if k == key
        then or_later (listed_json names) (field_of key (fields rest))
        else field_of key (fields rest))
field_of-list_field key k [] rest = ground arith
field_of-list_field key k (name ∷ names) rest = refl

-- The resource of a binding that is granted.
abbrev resource_of : String → String → Option Json
resource_of resource_type resource_id =
    if resource_type == ""
    then none
    else some (object (("resourceType", str resource_type) ∷ ("resourceId", str resource_id) ∷ []))

abbrev granted_resource : String → String → Option Resource
granted_resource resource_type resource_id =
    if resource_type == ""
    then none
    else some (record { resource_type = resource_type; resource_id = resource_id })

text_field-kept :
    (key value : String) → (value == "") ≡ false → text_field key value ≡ (key, str value) ∷ []
text_field-kept key value e = rw e refl

resource_field-kept :
    (resource_type resource_id : String)
    → (resource_type == "") ≡ false
    → (resource_id == "") ≡ false
    → resource_field (some (record { resource_type = resource_type; resource_id = resource_id }))
      ≡ (
        "resource",
        object (("resourceType", str resource_type) ∷ ("resourceId", str resource_id) ∷ []),
      )
        ∷ []
resource_field-kept resource_type resource_id e q =
    ap (λ x. ("resource", object (x ++ text_field "resourceId" resource_id)) ∷ [])
      (text_field-kept "resourceType" resource_type e)
    ∙ ap (λ x. ("resource", object (("resourceType", str resource_type) ∷ x)) ∷ [])
        (text_field-kept "resourceId" resource_id q)

field_of-resource_field :
    (key resource_type resource_id : String) (rest : List (String × Json))
    → (not (resource_type == "") && (resource_id == "")) ≡ false
    → field_of key (fields (resource_field (granted_resource resource_type resource_id) ++ rest))
      ≡ (if "resource" == key
          then or_later (resource_of resource_type resource_id) (field_of key (fields rest))
          else field_of key (fields rest))
field_of-resource_field key resource_type resource_id rest typed =
    elim (Bool-cases (resource_type == "")) [
      | inl e ↦ rw e (ground arith)
      | inr e ↦
          let q : (resource_id == "") ≡ false = rw e at typed in
          let there : granted_resource resource_type resource_id
              ≡ some (record { resource_type = resource_type; resource_id = resource_id }) =
            rw e refl in
          let asked : some (
                object (("resourceType", str resource_type) ∷ ("resourceId", str resource_id) ∷ []))
              ≡ resource_of resource_type resource_id =
            rw e refl in
          ap (λ g. field_of key (fields (resource_field g ++ rest))) there
          ∙ ap (λ x. field_of key (fields (x ++ rest)))
              (resource_field-kept resource_type resource_id e q)
          ∙ ap
              (λ x.
                if "resource" == key
                then or_later x (field_of key (fields rest))
                else field_of key (fields rest))
              asked
    ]

field_of-last_field :
    (key k : String) (names : List String)
    → field_of key (fields (list_field k names)) ≡ (if k == key then listed_json names else none)
field_of-last_field key k [] = ground arith
field_of-last_field key k (name ∷ names) = refl

-- The fields of a binding that are lists.
field_of-lists :
    (key : String) (groups subjects roles : List String)
    → field_of key (
        fields (
          list_field "groups" groups
          ++ (list_field "subjects" subjects ++ list_field "roles" roles)))
      ≡ (let last = if "roles" == key then listed_json roles else none in
          let later = if "subjects" == key then or_later (listed_json subjects) last else last in
          if "groups" == key then or_later (listed_json groups) later else later)
field_of-lists key groups subjects roles =
    field_of-list_field key "groups" groups _
    ∙ ap (λ x. if "groups" == key then or_later (listed_json groups) x else x)
        (field_of-list_field key "subjects" subjects _
          ∙ ap (λ x. if "subjects" == key then or_later (listed_json subjects) x else x)
              (field_of-last_field key "roles" roles))

pub binding_to_create-IsRequested :
    (resource_type : String) (body : GrantRequestBody) (binding_id : String)
    → (not (resource_type == "") && (body.resource_id == "")) ≡ false
    → IsRequested resource_type body binding_id
        (binding_json (binding_to_create binding_id resource_type body))
unfolding binding_json binding_to_create
binding_to_create-IsRequested resource_type body binding_id typed =
    let by_resource = λ (key : String).
      field_of-resource_field key resource_type body.resource_id
        (("bindingId", str binding_id)
          ∷ (list_field "groups" body.groups
              ++ (list_field "subjects" body.subjects ++ list_field "roles" body.roles)))
        typed in
    let by_lists = λ (key : String). field_of-lists key body.groups body.subjects body.roles in
    (
      _,
      refl,
      by_resource "bindingId",
      by_resource "groups" ∙ by_lists "groups" ∙ or_later-none _,
      by_resource "subjects" ∙ by_lists "subjects" ∙ or_later-none _,
      by_resource "roles" ∙ by_lists "roles",
      by_resource "permissions" ∙ by_lists "permissions",
      by_resource "resource"
          ∙ ap (or_later (resource_of resource_type body.resource_id)) (by_lists "resource")
          ∙ or_later-none _,
    )
