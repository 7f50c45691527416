-- ===== src/Tests/Queries.antt =====
-- MongoDB's reading of the queries of the standalone mode, on a single binding.
use rond.Prelude.{
  String, Bool, true, false, ◌&&◌, ◌||◌, List, ◌≡◌, refl, ap, ◌==◌, elem, meet, if◌then◌else◌,
}
use rond.Prelude.Json.{
  Json, str, arr, obj, Items, no_items, item, Fields, no_fields, field, single, strings,
}
use rond.Types.{Binding}
use rond.Service.Standalone.Queried.{Queries, on_resource}
use rond.Tests.Bindings.{texts, texts-strings}

-- A field that is in a list, or has an element in it.
abbrev is_in : String → List String → Binding → Bool
is_in key names b =
    if key == "subjects"
    then meet names b.subjects
    else if key == "groups"
    then meet names b.groups
    else if key == "bindingId"
    then elem b.binding_id names
    else on_resource (λ r. elem r.resource_id names) b.resource

unfoldable mutual
  pub fits : Json → Binding → Bool
  fits (obj fs) b = fits_fields fs b
  fits j b = false

  pub fits_fields : Fields → Binding → Bool
  fits_fields no_fields b = true
  fits_fields (field k v no_fields) b = fits_field k v b
  fits_fields (field k v rest) b = fits_field k v b && fits_fields rest b

  pub fits_field : String → Json → Binding → Bool
  fits_field k (arr xs) b = if k == "$and" then fits_all xs b else fits_any xs b
  fits_field k (str s) b = on_resource (λ r. r.resource_type == s) b.resource
  fits_field k (obj (field o (arr xs) rest)) b = is_in k (texts xs) b
  fits_field k j b = false

  pub fits_all : Items → Binding → Bool
  fits_all no_items b = true
  fits_all (item j no_items) b = fits j b
  fits_all (item j js) b = fits j b && fits_all js b

  pub fits_any : Items → Binding → Bool
  fits_any no_items b = false
  fits_any (item j no_items) b = fits j b
  fits_any (item j js) b = fits j b || fits_any js b

fits-in :
    (key : String) (names : List String) (b : Binding)
    → fits (single key (single "$in" (strings names))) b ≡ is_in key names b
unfolding fits
fits-in key names b = ap (λ ss. is_in key ss b) (texts-strings names)

pub queries : Queries
unfolding fits
queries = record {
  matches = fits;
  or_one_lem = λ f b. refl;
  or_two_lem = λ f g b. refl;
  and_lem = λ f g b. refl;
  fields_lem = λ k l f g b. refl;
  subjects_lem = fits-in "subjects";
  groups_lem = fits-in "groups";
  type_lem = λ t b. refl;
  id_lem = fits-in "resource.resourceId";
  binding_id_lem = fits-in "bindingId";
}
