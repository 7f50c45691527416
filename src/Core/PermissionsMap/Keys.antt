-- ===== src/Core/PermissionsMap/Keys.antt =====
-- The keys that the loops of `buildOptimizedResourcePermissionsMap` list: each loop inserts a list
-- of keys, or panics if it has a permission to list and no resource.
use rond.Prelude.{
  String, Bool, true, List, [], ◌∷◌, ◌++◌, Option, none, some, Result, ok, panic, ◌>>=◌, ◌≡◌, refl,
  arith, if◌then◌else◌, map, elem, elem-nil, elem-cons, is_empty, ◌&&◌, Option-cases, Bool-cases,
  inl, inr, sym, ap, ◌∙◌, bind_assoc,
}
use mathlib.Core.List.{map-append}
use rond.Prelude.Map.{Map, lookup, insert, lookup-insert}
use rond.Types.{Resource, Binding}
use rond.Core.PermissionsMap.{
  PermissionsOnResourceMap, build_permission_on_resource_key, add_permissions, add_role, add_roles,
  add_bindings,
}

abbrev pub key_of : Resource → String → String
key_of r permission = build_permission_on_resource_key permission r.resource_type r.resource_id

-- The permissions that a role name stands for.
abbrev pub permissions_of : Option (List String) → List String
permissions_of none = []
permissions_of (some ps) = ps

-- What a binding's roles stand for, in the order of the loops.
unfoldable pub role_permissions : Map (List String) → List String → List String
role_permissions roles_map [] = []
role_permissions roles_map (role ∷ roles) =
    permissions_of (lookup role roles_map) ++ role_permissions roles_map roles

abbrev pub binding_permissions : Map (List String) → Binding → List String
binding_permissions roles_map b = role_permissions roles_map b.roles ++ b.permissions

abbrev pub keys_at : Option Resource → List String → List String
keys_at none ps = []
keys_at (some r) ps = map (key_of r) ps

unfoldable pub bindings_keys : Map (List String) → List Binding → List String
bindings_keys roles_map [] = []
bindings_keys roles_map (b ∷ bs) =
    keys_at b.resource (binding_permissions roles_map b) ++ bindings_keys roles_map bs

-- A resource is there, or nothing has to be listed.
abbrev pub readable : Option Resource → List String → Bool
readable none ps = is_empty ps
readable (some _) ps = true

unfoldable pub all_readable : Map (List String) → List Binding → Bool
all_readable roles_map [] = true
all_readable roles_map (b ∷ bs) =
    readable b.resource (binding_permissions roles_map b) && all_readable roles_map bs

pub insert_keys : List String → PermissionsOnResourceMap → PermissionsOnResourceMap
insert_keys [] m = m
insert_keys (k ∷ ks) m = insert_keys ks (insert k true m)

insert_keys-append :
    (ks js : List String) (m : PermissionsOnResourceMap)
    → insert_keys (ks ++ js) m ≡ insert_keys js (insert_keys ks m)
unfolding insert_keys
insert_keys-append [] js m = refl
insert_keys-append (k ∷ ks) js m = insert_keys-append ks js (insert k true m)

pub lookup-insert_keys :
    (k : String) (ks : List String) (m : PermissionsOnResourceMap)
    → lookup k (insert_keys ks m) ≡ (if elem k ks then some true else lookup k m)
unfolding insert_keys
lookup-insert_keys k [] m = rw elem-nil
lookup-insert_keys k (j ∷ ks) m =
    rw (lookup-insert_keys k ks (insert j true m), lookup-insert, elem-cons) (ground arith)

readable-append :
    (r : Option Resource) (xs ys : List String)
    → readable r (xs ++ ys) ≡ (readable r xs && readable r ys)
readable-append none [] ys = refl
readable-append none (x ∷ xs) ys = refl
readable-append (some r) xs ys = refl

keys_at-append :
    (r : Option Resource) (xs ys : List String)
    → keys_at r (xs ++ ys) ≡ keys_at r xs ++ keys_at r ys
keys_at-append none xs ys = refl
keys_at-append (some r) xs ys = map-append (key_of r) xs ys

-- The keys inserted, unless the loop reads a resource that is not there.
abbrev pub inserted :
    Option Resource → List String → PermissionsOnResourceMap → Result PermissionsOnResourceMap
inserted r ps m = if readable r ps then ok (insert_keys (keys_at r ps) m) else panic

-- Two loops one after the other list what the two hold.
inserted-bind :
    (r : Option Resource) (xs ys : List String) (m : PermissionsOnResourceMap)
    → (inserted r xs m >>= λ m'. inserted r ys m') ≡ inserted r (xs ++ ys) m
inserted-bind r xs ys m = elim (Bool-cases (readable r xs)) [
  | inl e ↦ rw (readable-append, keys_at-append, insert_keys-append, e)
  | inr e ↦ rw (readable-append, e)
]

add_permissions_lem :
    (r : Option Resource) (ps : List String) (m : PermissionsOnResourceMap)
    → add_permissions r ps m ≡ inserted r ps m
unfolding add_permissions insert_keys
add_permissions_lem none [] m = refl
add_permissions_lem none (p ∷ ps) m = refl
add_permissions_lem (some r) [] m = refl
add_permissions_lem (some r) (p ∷ ps) m =
    add_permissions_lem (some r) ps (insert (key_of r p) true m)

module _ (roles_map : Map (List String)) where
  add_role_lem :
      (r : Option Resource) (role : String) (m : PermissionsOnResourceMap)
      → add_role roles_map r role m ≡ inserted r (permissions_of (lookup role roles_map)) m
  unfolding add_role insert_keys
  add_role_lem none role m = elim (Option-cases (lookup role roles_map)) [
    | inl e ↦ rw (e, add_role)
    | inr (ps, e) ↦ rw (e, add_role) (add_permissions_lem none ps m)
  ]
  add_role_lem (some r) role m = elim (Option-cases (lookup role roles_map)) [
    | inl e ↦ rw (e, add_role)
    | inr (ps, e) ↦ rw (e, add_role) (add_permissions_lem (some r) ps m)
  ]

  add_roles_lem :
      (r : Option Resource) (roles : List String) (m : PermissionsOnResourceMap)
      → add_roles roles_map r roles m ≡ inserted r (role_permissions roles_map roles) m
  unfolding add_roles role_permissions insert_keys
  add_roles_lem none [] m = refl
  add_roles_lem (some r) [] m = refl
  add_roles_lem r (role ∷ roles) m =
      simp (add_role_lem, add_roles_lem r roles)
        (inserted-bind r (permissions_of (lookup role roles_map)) (role_permissions roles_map roles)
          m)

  binding_lem :
      (b : Binding) (m : PermissionsOnResourceMap)
      → (add_roles roles_map b.resource b.roles m >>= λ m'.
          add_permissions b.resource b.permissions m')
        ≡ inserted b.resource (binding_permissions roles_map b) m
  binding_lem b m =
      simp (add_roles_lem, add_permissions_lem)
        (inserted-bind b.resource (role_permissions roles_map b.roles) b.permissions m)

  -- All the loops together.
  pub add_bindings_lem :
      (bs : List Binding) (m : PermissionsOnResourceMap)
      → add_bindings roles_map bs m ≡ (
          if all_readable roles_map bs
          then ok (insert_keys (bindings_keys roles_map bs) m)
          else panic)
  unfolding add_bindings all_readable bindings_keys
  add_bindings_lem [] m = unfold insert_keys in refl
  add_bindings_lem (b ∷ bs) m =
      sym (
        bind_assoc (add_roles roles_map b.resource b.roles m)
          (λ m'. add_permissions b.resource b.permissions m') (λ m'. add_bindings roles_map bs m'))
      ∙ ap (λ r. r >>= λ m'. add_bindings roles_map bs m') (binding_lem b m)
      ∙ elim (Bool-cases (readable b.resource (binding_permissions roles_map b))) [
        | inl e ↦ rw (e, add_bindings_lem bs, insert_keys-append)
        | inr e ↦ rw e
      ]
