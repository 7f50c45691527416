-- ===== src/Tests/Permissions.antt =====
-- The optimized permissions map.
use rond.Prelude.{true, [], ◌∷◌, none, some, ok, panic, ◌≡◌, ◌↔◌, refl}
use rond.Prelude.Map.{lookup, insert}
use rond.Types.{User}
use rond.Core.PermissionsMap.{
  PermissionsOnResourceMap, add_permissions, add_role, add_roles, add_bindings, roles_map_from,
  build_roles_map, build_optimized_resource_permissions_map, build_permission_on_resource_key,
}
use rond.Core.PermissionsMap.Grants.{Grants, build_optimized_resource_permissions_map_iff}
use rond.Core.PermissionsMap.Panics.{Unreadable, build_optimized_resource_permissions_map-panic_iff}
use rond.Tests.Fixtures.{desk, binding, user}

abbrev two_bindings : User
two_bindings =
    user (binding (some desk) ("read" ∷ []) ("editor" ∷ "unknown" ∷ []) ∷ binding none [] [] ∷ [])

abbrev built : PermissionsOnResourceMap
built = ("write:desk:d1", true) ∷ ("read:desk:d1", true) ∷ []

built_lem : build_optimized_resource_permissions_map two_bindings ≡ ok built
unfolding build_optimized_resource_permissions_map add_bindings add_roles add_role add_permissions
    build_roles_map roles_map_from lookup insert build_permission_on_resource_key
built_lem = refl

build_optimized_resource_permissions_map_iff_example :
    (lookup "write:desk:d1" built ≡ some true) ↔ Grants two_bindings "write:desk:d1"
build_optimized_resource_permissions_map_iff_example =
    build_optimized_resource_permissions_map_iff two_bindings built "write:desk:d1" built_lem

-- A binding without a resource, as a grant without a resource type creates it.
abbrev no_resource : User
no_resource = user (binding none [] ("editor" ∷ []) ∷ [])

no_resource_panics : build_optimized_resource_permissions_map no_resource ≡ panic
unfolding build_optimized_resource_permissions_map add_bindings add_roles add_role add_permissions
    build_roles_map roles_map_from lookup insert
no_resource_panics = refl

build_optimized_resource_permissions_map-panic_iff_example :
    (build_optimized_resource_permissions_map no_resource ≡ panic)
    ↔ Unreadable no_resource no_resource.user_bindings
build_optimized_resource_permissions_map-panic_iff_example =
    build_optimized_resource_permissions_map-panic_iff no_resource
