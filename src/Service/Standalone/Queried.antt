-- ===== src/Service/Standalone/Queried.antt =====
-- Which bindings the queries of service/standalone_apis.go match, by what MongoDB documents of the
-- operators that they use. The CRUD service hands them to MongoDB.
use mathlib.Core.Bool.{and-eq-true_iff}
use rond.Prelude.{
  String, Bool, true, false, ◌&&◌, ◌||◌, List, [], ◌∷◌, is_empty, Option, none, some, ◌==◌, ◌≡◌,
  ◌⊎◌, ◌↔◌, ◌∙◌, inl, inr, refl, sym, ap, eq_iff, Memᴰ, Memᴰ-map, Memᴰ-map_of, elem, elem_iff, meet,
  meet_iff, Bool-cases, some-injective,
}
use rond.Prelude.Json.{Json, str, object, single, array, strings}
use rond.Types.{Binding, Resource}
use rond.Service.Revoke.{
  RevokeRequestBody, subject_or_groups, build_query, build_query_for_bindings_to_delete,
}

-- A test of the resource, which a binding without one fails.
abbrev pub on_resource : (Resource → Bool) → Option Resource → Bool
on_resource test none = false
on_resource test (some resource) = test resource

-- The operators: `$or` and `$and` of one or two queries, all fields of a query, a field that equals
-- a text, one that is `$in` a list, and one of the elements of which is.
pub record Queries : Type 0 where
  pub matches : Json → Binding → Bool
  pub or_one_lem :
      (f : Json) (b : Binding) → matches (single "$or" (array (f ∷ []))) b ≡ matches f b
  pub or_two_lem :
      (f g : Json) (b : Binding)
      → matches (single "$or" (array (f ∷ g ∷ []))) b ≡ (matches f b || matches g b)
  pub and_lem :
      (f g : Json) (b : Binding)
      → matches (single "$and" (array (f ∷ g ∷ []))) b ≡ (matches f b && matches g b)
  pub fields_lem :
      (k l : String) (f g : Json) (b : Binding)
      → matches (object ((k, f) ∷ (l, g) ∷ [])) b
        ≡ (matches (single k f) b && matches (single l g) b)
  pub subjects_lem :
      (names : List String) (b : Binding)
      → matches (single "subjects" (single "$in" (strings names))) b ≡ meet names b.subjects
  pub groups_lem :
      (names : List String) (b : Binding)
      → matches (single "groups" (single "$in" (strings names))) b ≡ meet names b.groups
  pub type_lem :
      (resource_type : String) (b : Binding)
      → matches (single "resource.resourceType" (str resource_type)) b
        ≡ on_resource (λ r. r.resource_type == resource_type) b.resource
  pub id_lem :
      (ids : List String) (b : Binding)
      → matches (single "resource.resourceId" (single "$in" (strings ids))) b
        ≡ on_resource (λ r. elem r.resource_id ids) b.resource
  pub binding_id_lem :
      (ids : List String) (b : Binding)
      → matches (single "bindingId" (single "$in" (strings ids))) b ≡ elem b.binding_id ids

-- The binding is on a resource of the type with one of the ids, if a type is asked for.
abbrev pub IsOn : String → List String → Binding → Type 0
IsOn resource_type ids b =
    (resource_type ≡ "")
    ⊎ ((r : Resource) × (b.resource ≡ some r)
        × (r.resource_type ≡ resource_type)
        × Memᴰ r.resource_id ids)

-- The binding has one of the subjects or of the groups.
abbrev pub HasOneOf : List String → List String → Binding → Type 0
HasOneOf subjects groups b =
    ((s : String) × Memᴰ s subjects × Memᴰ s b.subjects)
    ⊎ ((g : String) × Memᴰ g groups × Memᴰ g b.groups)

-- Exactly the bindings on the resources asked for that have a subject or a group to revoke.
abbrev pub Finds : Queries → String → RevokeRequestBody → Json → Type 0
Finds queries resource_type body query =
    (b : Binding)
    → (queries.matches query b ≡ true)
      ↔ (IsOn resource_type body.resource_ids b × HasOneOf body.subjects body.groups b)

-- Exactly the bindings with the id of one of the list.
abbrev pub FindsIds : Queries → List Binding → Json → Type 0
FindsIds queries bindings query =
    (b : Binding)
    → (queries.matches query b ≡ true)
      ↔ ((c : Binding) × Memᴰ c bindings × (c.binding_id ≡ b.binding_id))

module _ (queries : Queries) where
  matches-subject_or_groups :
      (subjects groups : List String) (b : Binding)
      → (is_empty subjects && is_empty groups) ≡ false
      → queries.matches (single "$or" (array (subject_or_groups subjects groups))) b
        ≡ (meet subjects b.subjects || meet groups b.groups)
  unfolding subject_or_groups
  matches-subject_or_groups [] [] b h = cc
  matches-subject_or_groups [] (g ∷ groups) b h =
      queries.or_one_lem _ b ∙ queries.groups_lem (g ∷ groups) b
  matches-subject_or_groups (s ∷ subjects) [] b h =
      queries.or_one_lem _ b ∙ queries.subjects_lem (s ∷ subjects) b ∙ or_false _
    where
      or_false : (t : Bool) → t ≡ (t || false)
      or_false true = refl
      or_false false = refl
  matches-subject_or_groups (s ∷ subjects) (g ∷ groups) b h =
      queries.or_two_lem _ _ b
      ∙ rw (queries.subjects_lem (s ∷ subjects) b, queries.groups_lem (g ∷ groups) b) refl

  HasOneOf-iff :
      (subjects groups : List String) (b : Binding)
      → ((meet subjects b.subjects || meet groups b.groups) ≡ true) ↔ HasOneOf subjects groups b
  HasOneOf-iff subjects groups b = elim (Bool-cases (meet subjects b.subjects)) [
    | inl e ↦ (λ h. inl ((meet_iff _ _).0 e), λ h. rw e refl)
    | inr e ↦ (
      λ h. inr ((meet_iff _ _).0 (rw e at h)),
      λ h. elim h [
        | inl s ↦ let k = sym e ∙ (meet_iff subjects b.subjects).1 s in cc
        | inr g ↦ rw (e, (meet_iff groups b.groups).1 g) refl
      ],
    )
  ]

  resource_iff :
      (resource_type : String) (ids : List String) (resource : Option Resource)
      → ((on_resource (λ r. r.resource_type == resource_type) resource
            && on_resource (λ r. elem r.resource_id ids) resource)
          ≡ true)
        ↔ ((r : Resource) × (resource ≡ some r)
            × (r.resource_type ≡ resource_type)
            × Memᴰ r.resource_id ids)
  resource_iff resource_type ids none = (λ h. cc, λ (r, e, _, _). cc)
  resource_iff resource_type ids (some r) = (
    λ h.
        let (same, listed) = (and-eq-true_iff _ _).0 h in
        (r, refl, (eq_iff _ _).0 same, (elem_iff _ _).0 listed),
    λ (q, e, same, listed).
        let p : r ≡ q = some-injective e in
        (and-eq-true_iff _ _).1
          ((eq_iff _ _).1 (ap (λ x. x.resource_type) p ∙ same), (elem_iff _ _).1 (rw p listed)),
  )

  pub build_query-Finds :
      (resource_type : String) (body : RevokeRequestBody)
      → (is_empty body.subjects && is_empty body.groups) ≡ false
      → Finds queries resource_type body
          (build_query resource_type body.resource_ids body.subjects body.groups)
  unfolding build_query
  build_query-Finds resource_type body named b =
      let (sound, complete) = HasOneOf-iff body.subjects body.groups b in
      let by_names = matches-subject_or_groups body.subjects body.groups b named in
      elim (Bool-cases (resource_type == "")) [
        | inl e ↦ rw (e, by_names) (λ h. (inl ((eq_iff _ _).0 e), sound h), λ (_, h). complete h)
        | inr e ↦
            let (on, at) = resource_iff resource_type body.resource_ids b.resource in
            rw (e, queries.and_lem, by_names, queries.fields_lem, queries.type_lem, queries.id_lem)
              (
                λ h.
                    let (typed, named_one) = (and-eq-true_iff _ _).0 h in
                    (inr (on typed), sound named_one),
                λ (is_on, h). (and-eq-true_iff _ _).1 (
                  elim is_on [
                    | inl q ↦ let k = sym e ∙ (eq_iff resource_type "").1 q in cc
                    | inr q ↦ at q
                  ],
                  complete h,
                ),
              )
      ]

  pub build_query_for_bindings_to_delete-FindsIds :
      (bindings : List Binding)
      → FindsIds queries bindings (build_query_for_bindings_to_delete bindings)
  unfolding build_query_for_bindings_to_delete
  build_query_for_bindings_to_delete-FindsIds bindings b = rw (queries.binding_id_lem) (
    λ h. Memᴰ-map (λ c. c.binding_id) bindings ((elem_iff _ _).0 h),
    λ (c, listed, same). (elem_iff _ _).1 (Memᴰ-map_of (λ c. c.binding_id) bindings listed same),
  )
