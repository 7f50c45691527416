-- ===== src/Core/PermissionsMap/Gives.antt =====
-- Which permissions the bindings of a user give, by the loops of `core/opaevaluator.go` and by a
-- relation over the bindings and roles.
use rond.Prelude.{
  String, List, [], ◌∷◌, Option, none, some, ok, panic, ◌≡◌, ◌↔◌, refl, ◌∙◌, arith, if◌then◌else◌,
  Memᴰ, Memᴰ-append, Memᴰ-append_left, Memᴰ-append_right, Option-cases, inl, inr, ◌==◌,
}
use mathlib.Core.Option
use rond.Prelude.Map.{Map, lookup, insert, lookup-insert, lookup-nil}
use rond.Types.{elements, Binding, Role, User}
use rond.Core.PermissionsMap.{
  roles_map_from, build_roles_map, build_optimized_resource_permissions_map,
}
use rond.Core.PermissionsMap.Keys.{
  permissions_of, role_permissions, binding_permissions, bindings_keys, all_readable, insert_keys,
  add_bindings_lem,
}

-- The last role of an id: the one that counts where an id stands twice.
abbrev pub last_role : String → List Role → Option Role
last_role id [] = none
last_role id (role ∷ roles) = elim (last_role id roles) [
  | some later ↦ some later
  | none ↦ if role.role_id == id then some role else none
]

abbrev pub or_else : Option (List String) → Option (List String) → Option (List String)
or_else (some a) b = some a
or_else none b = b

lookup-roles_map_from :
    (id : String) (roles : List Role) (m : Map (List String))
    → lookup id (roles_map_from m roles)
      ≡ or_else (Option.map (λ r. elements r.permissions) (last_role id roles)) (lookup id m)
unfolding roles_map_from
lookup-roles_map_from id [] m = refl
lookup-roles_map_from id (role ∷ roles) m =
    lookup-roles_map_from id roles (insert role.role_id (elements role.permissions) m)
    ∙ elim (Option-cases (last_role id roles)) [
      | inl e ↦ rw (e, lookup-insert) (ground arith)
      | inr (r, e) ↦ rw e
    ]

lookup-build_roles_map :
    (id : String) (roles : List Role)
    → lookup id (build_roles_map roles)
      ≡ Option.map (λ r. elements r.permissions) (last_role id roles)
unfolding build_roles_map
lookup-build_roles_map id roles =
    lookup-roles_map_from id roles []
    ∙ elim (Option-cases (last_role id roles)) [ inl e ↦ rw (e, lookup-nil) | inr (r, e) ↦ rw e ]

-- A permission that a binding gives to a user: its own, or one of a role that it names.
pub data Gives (user : User) (b : Binding) (p : String) : Type 0 where
  direct : Memᴰ p b.permissions → Gives user b p
  by_role :
      (name : String) (role : Role)
      → Memᴰ name b.roles
      → last_role name user.user_roles ≡ some role
      → Memᴰ p (elements role.permissions)
      → Gives user b p

-- The permissions that a role's name stands for, by the role that counts.
Memᴰ-permissions_of :
    (p name : String) (roles : List Role)
    → Memᴰ p (permissions_of (lookup name (build_roles_map roles)))
    → (role : Role) × (last_role name roles ≡ some role) × Memᴰ p (elements role.permissions)
Memᴰ-permissions_of p name roles m = elim (Option-cases (last_role name roles)) [
  | inl e ↦ let n : Memᴰ p [] = rw (lookup-build_roles_map, e) at m in elim n [ ]
  | inr (r, e) ↦ (r, e, rw (lookup-build_roles_map, e) at m)
]

module _ (user : User) where
  abbrev pub roles_map : Map (List String)
  roles_map = build_roles_map user.user_roles

  Gives_of_role_permissions :
      (b : Binding) (p : String) (names : List String)
      → ((name : String) → Memᴰ name names → Memᴰ name b.roles)
      → Memᴰ p (role_permissions roles_map names)
      → Gives user b p
  unfolding role_permissions
  Gives_of_role_permissions b p [] sub m = elim m [ ]
  Gives_of_role_permissions b p (name ∷ names) sub m =
      elim (Memᴰ-append (permissions_of (lookup name roles_map)) m) [
        | inl here ↦
            let (role, e, n) = Memᴰ-permissions_of p name user.user_roles here in
            by_role name role (sub name (Memᴰ.head refl)) e n
        | inr later ↦ Gives_of_role_permissions b p names (λ n h. sub n (Memᴰ.tail h)) later
      ]

  role_permissions_of_Gives :
      (p name : String) (role : Role) (names : List String)
      → Memᴰ name names
      → last_role name user.user_roles ≡ some role
      → Memᴰ p (elements role.permissions)
      → Memᴰ p (role_permissions roles_map names)
  unfolding role_permissions
  role_permissions_of_Gives p name role [] m e n = elim m [ ]
  role_permissions_of_Gives p name role (x ∷ names) (Memᴰ.head q) e n =
      Memᴰ-append_left {xs = permissions_of (lookup x roles_map)} _
        (rw (← q, lookup-build_roles_map, e) n)
  role_permissions_of_Gives p name role (x ∷ names) (Memᴰ.tail m) e n =
      Memᴰ-append_right _ (role_permissions_of_Gives p name role names m e n)

  -- A binding's permissions are those that it gives.
  pub Memᴰ-binding_permissions :
      (b : Binding) (p : String) → Memᴰ p (binding_permissions roles_map b) ↔ Gives user b p
  Memᴰ-binding_permissions b p = (
    λ m. elim (Memᴰ-append (role_permissions roles_map b.roles) m) [
      | inl r ↦ Gives_of_role_permissions b p b.roles (λ n h. h) r
      | inr d ↦ direct d
    ],
    λ g. elim g [
      | direct d ↦ Memᴰ-append_right _ d
      | by_role name role m e n ↦
          Memᴰ-append_left _ (role_permissions_of_Gives p name role b.roles m e n)
    ],
  )

module _ (user : User) where
  pub build_lem : build_optimized_resource_permissions_map user ≡ (
      if all_readable (roles_map user) user.user_bindings
      then ok (insert_keys (bindings_keys (roles_map user) user.user_bindings) [])
      else panic)
  unfolding build_optimized_resource_permissions_map
  build_lem = add_bindings_lem (roles_map user) user.user_bindings []
