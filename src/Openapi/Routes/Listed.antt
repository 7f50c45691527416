-- ===== src/Openapi/Routes/Listed.antt =====
-- Which routes the map of `createRoutesMap` of openapi/openapi_utils.go lists.
use rond.Prelude.{
  String, true, [], ◌∷◌, ◌≡◌, ◌==◌, ◌∙◌, ap, refl, sym, ◌⊎◌, ◌↔◌, inl, inr, eq_iff, Memᴰ,
  Bool-cases,
}
use rond.Prelude.Map.{lookup, insert, lookup-insert, lookup-nil}
use rond.Prelude.Text.{◌⧺◌, to_upper}
use rond.Openapi.{VerbConfig, PathVerbs, OpenApiPaths, OpenApiSpec}
use rond.Openapi.Routes.{
  RoutesMap, route_key, is_there, add_path_routes, add_routes, create_routes_map, contains,
}

-- A verb of the list has the text behind the path and a slash, in capitals.
abbrev pub IsVerbOf : PathVerbs → String → String → Type 0
IsVerbOf verbs path text =
    (verb : String) × (config : VerbConfig) × Memᴰ (verb, config) verbs
    × ((path ⧺ "/" ⧺ to_upper verb) ≡ text)

abbrev IsIn : OpenApiPaths → String → Type 0
IsIn paths text =
    (path : String) × (verbs : PathVerbs) × Memᴰ (path, verbs) paths × IsVerbOf verbs path text

-- The specification has a path and a verb of it that read, with a slash between them and the verb
-- in capitals, like this path and this method.
abbrev pub Configures : OpenApiSpec → String → String → Type 0
Configures oas path method = IsIn oas.paths (path ⧺ "/" ⧺ method)

module _ (text : String) where
  -- A route of a map.
  abbrev Has : RoutesMap → Type 0
  Has m = is_there (lookup text m) ≡ true

  Has-insert_iff : (key : String) (m : RoutesMap) → Has (insert key true m) ↔ ((key ≡ text) ⊎ Has m)
  Has-insert_iff key m = elim (Bool-cases (key == text)) [
    | inl e ↦ (λ h. inl ((eq_iff key text).0 e), λ h. rw (lookup-insert, e) refl)
    | inr e ↦ (
      λ h. inr (rw (lookup-insert, e) at h),
      λ h. elim h [
        | inl q ↦ let k = sym e ∙ (eq_iff key text).1 q in cc
        | inr k ↦ rw (lookup-insert, e) k
      ],
    )
  ]

  add_path_routes_iff :
      (path : String) (verbs : PathVerbs) (m : RoutesMap)
      → Has (add_path_routes path verbs m) ↔ (IsVerbOf verbs path text ⊎ Has m)
  unfolding add_path_routes
  add_path_routes_iff path [] m =
      (λ h. inr h, λ h. elim h [ inl (_, _, n, _) ↦ elim n [ ] | inr k ↦ k ])
  add_path_routes_iff path ((method, config) ∷ verbs) m =
      let (sound, complete) =
        add_path_routes_iff path verbs (insert (route_key path (to_upper method)) true m) in
      let (split, join) = Has-insert_iff (route_key path (to_upper method)) m in
      (
        λ h. elim (sound h) [
          | inl (v, c, n, e) ↦ inl (v, c, Memᴰ.tail n, e)
          | inr k ↦ elim (split k) [
            | inl e ↦ inl (method, config, Memᴰ.head refl, e)
            | inr old ↦ inr old
          ]
        ],
        λ h. complete (again join h),
      )
    where
      again :
          ((route_key path (to_upper method) ≡ text) ⊎ Has m
            → Has (insert (route_key path (to_upper method)) true m))
          → IsVerbOf ((method, config) ∷ verbs) path text ⊎ Has m
          → IsVerbOf verbs path text ⊎ Has (insert (route_key path (to_upper method)) true m)
      again join (inl (v, c, Memᴰ.head q, e)) =
          inr (join (inl (ap (λ x. route_key path (to_upper x.0)) (sym q) ∙ e)))
      again join (inl (v, c, Memᴰ.tail n, e)) = inl (v, c, n, e)
      again join (inr k) = inr (join (inr k))

  add_routes_iff :
      (paths : OpenApiPaths) (m : RoutesMap) → Has (add_routes paths m) ↔ (IsIn paths text ⊎ Has m)
  unfolding add_routes
  add_routes_iff [] m = (λ h. inr h, λ h. elim h [ inl (_, _, n, _) ↦ elim n [ ] | inr k ↦ k ])
  add_routes_iff ((path, verbs) ∷ paths) m =
      let (sound, complete) = add_routes_iff paths (add_path_routes path verbs m) in
      let (split, join) = add_path_routes_iff path verbs m in
      (
        λ h. elim (sound h) [
          | inl (p, v, n, e) ↦ inl (p, v, Memᴰ.tail n, e)
          | inr k ↦ elim (split k) [
            | inl e ↦ inl (path, verbs, Memᴰ.head refl, e)
            | inr old ↦ inr old
          ]
        ],
        λ h. complete (again join h),
      )
    where
      again :
          (IsVerbOf verbs path text ⊎ Has m → Has (add_path_routes path verbs m))
          → IsIn ((path, verbs) ∷ paths) text ⊎ Has m
          → IsIn paths text ⊎ Has (add_path_routes path verbs m)
      again join (inl (p, v, Memᴰ.head q, e)) =
          inr (join (inl (rw (ap (λ x. x.0) q, ap (λ x. x.1) q) at e)))
      again join (inl (p, v, Memᴰ.tail n, e)) = inl (p, v, n, e)
      again join (inr k) = inr (join (inr k))

pub contains-Configures_iff :
    (oas : OpenApiSpec) (path method : String)
    → (contains (create_routes_map oas) path method ≡ true) ↔ Configures oas path method
unfolding contains create_routes_map
contains-Configures_iff oas path method =
    let (sound, complete) = add_routes_iff (route_key path method) oas.paths [] in
    (
      λ h. elim (sound h) [ inl k ↦ k | inr k ↦ let q = rw lookup-nil at k in cc ],
      λ h. complete (inl h),
    )
