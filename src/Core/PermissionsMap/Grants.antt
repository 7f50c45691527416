-- ===== src/Core/PermissionsMap/Grants.antt =====
-- What the optimized permissions map of `core/opaevaluator.go` holds, stated without its loops.
use rond.Prelude.{
  String, true, List, [], ◌∷◌, Option, none, some, ok, ◌≡◌, ◌↔◌, refl, sym, ap, ◌∙◌, arith,
  if◌then◌else◌, elem, Memᴰ, elem_iff, Memᴰ-append, Memᴰ-append_left, Memᴰ-append_right, Bool-cases,
  inl, inr,
}
use rond.Prelude.Map.{lookup, lookup-nil}
use rond.Types.{Resource, Binding, User}
use rond.Core.PermissionsMap.{
  PermissionsOnResourceMap, build_permission_on_resource_key,
  build_optimized_resource_permissions_map,
}
use rond.Core.PermissionsMap.Keys.{
  key_of, binding_permissions, keys_at, bindings_keys, all_readable, insert_keys,
  lookup-insert_keys,
}
use rond.Core.PermissionsMap.Gives.{Gives, roles_map, Memᴰ-binding_permissions, build_lem}
use rond.Prelude.{Memᴰ-map, Memᴰ-map_of}

-- A key of the map: a permission that a binding of the user gives on the binding's resource.
pub record Grants (user : User) (k : String) : Type 0 where
  pub binding : Binding
  pub resource : Resource
  pub permission : String
  pub listed : Memᴰ binding user.user_bindings
  pub on : binding.resource ≡ some resource
  pub gives : Gives user binding permission
  pub key :
      build_permission_on_resource_key permission resource.resource_type resource.resource_id ≡ k

module _ (user : User) where
  keys_of_Grants :
      {k : String} (bs : List Binding) (b : Binding) (r : Resource) (p : String)
      → Memᴰ b bs
      → b.resource ≡ some r
      → Gives user b p
      → key_of r p ≡ k
      → Memᴰ k (bindings_keys (roles_map user) bs)
  unfolding bindings_keys
  keys_of_Grants [] b r p m on g e = elim m [ ]
  keys_of_Grants (c ∷ bs) b r p (Memᴰ.head q) on g e =
      Memᴰ-append_left {xs = keys_at c.resource (binding_permissions (roles_map user) c)} _
        (rw (← q, on) (Memᴰ-map_of (key_of r) _ ((Memᴰ-binding_permissions user b p).1 g) e))
  keys_of_Grants (c ∷ bs) b r p (Memᴰ.tail m) on g e =
      Memᴰ-append_right (keys_at c.resource (binding_permissions (roles_map user) c))
        (keys_of_Grants bs b r p m on g e)

  Grants-of_keys_at :
      (k : String) (b : Binding) (r : Option Resource)
      → b.resource ≡ r
      → Memᴰ b user.user_bindings
      → Memᴰ k (keys_at r (binding_permissions (roles_map user) b))
      → Grants user k
  Grants-of_keys_at k b none on listed m = elim m [ ]
  Grants-of_keys_at k b (some r) on listed m =
      let (p, gives, e) = Memᴰ-map (key_of r) _ m in
      record {
        binding = b;
        resource = r;
        permission = p;
        listed = listed;
        on = on;
        gives = (Memᴰ-binding_permissions user b p).0 gives;
        key = e;
      }

  Grants-of_keys :
      (k : String) (bs : List Binding)
      → ((b : Binding) → Memᴰ b bs → Memᴰ b user.user_bindings)
      → Memᴰ k (bindings_keys (roles_map user) bs)
      → Grants user k
  unfolding bindings_keys
  Grants-of_keys k [] sub m = elim m [ ]
  Grants-of_keys k (b ∷ bs) sub m =
      elim (Memᴰ-append (keys_at b.resource (binding_permissions (roles_map user) b)) m) [
        | inl here ↦ Grants-of_keys_at k b b.resource refl (sub b (Memᴰ.head refl)) here
        | inr later ↦ Grants-of_keys k bs (λ c h. sub c (Memᴰ.tail h)) later
      ]

  -- A built map is the one with the keys of all bindings.
  built_keys :
      {m : PermissionsOnResourceMap}
      → build_optimized_resource_permissions_map user ≡ ok m
      → insert_keys (bindings_keys (roles_map user) user.user_bindings) [] ≡ m
  built_keys {m} h = elim (Bool-cases (all_readable (roles_map user) user.user_bindings)) [
    | inl e ↦ cc (build_lem user, e)
    | inr e ↦ cc (build_lem user, e)
  ]

-- A map that is built without a panic holds `true` at a key exactly if some binding of the user
-- gives, on its resource, the permission that the key spells: a permission of the binding's own,
-- or one of the last role listed under a name that the binding has.
pub build_optimized_resource_permissions_map_iff :
    (user : User) (m : PermissionsOnResourceMap) (k : String)
    → build_optimized_resource_permissions_map user ≡ ok m
    → (lookup k m ≡ some true) ↔ Grants user k
build_optimized_resource_permissions_map_iff user m k h =
    let keys = bindings_keys (roles_map user) user.user_bindings in
    let e : lookup k m ≡ (if elem k keys then some true else none) =
      ap (lookup k) (sym (built_keys user h)) ∙ lookup-insert_keys k keys [] ∙ rw lookup-nil refl in
    (
      λ found.
          Grants-of_keys user k user.user_bindings (λ b m. m) ((elem_iff k keys).0 (ground arith)),
      λ g.
          e
          ∙ rw (
              (elem_iff k keys).1 (
                keys_of_Grants user user.user_bindings g.binding g.resource g.permission g.listed
                  g.on g.gives g.key)),
    )
