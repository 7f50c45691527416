-- ===== src/Core/PermissionsMap.antt =====
-- core/opaevaluator.go: `buildOptimizedResourcePermissionsMap`, `buildRolesMap` and
-- `buildPermissionOnResourceKey`. A binding without a resource is a nil pointer there, and reading
-- its fields panics; it is read only when the binding has a permission to list.
pub mod Keys
pub mod Gives
pub mod Grants
pub mod Panics
use rond.Prelude.{String, Bool, true, List, [], ◌∷◌, Option, none, some, Result, ok, panic, ◌>>=◌}
use rond.Prelude.Map.{Map, lookup, insert}
use rond.Prelude.Text.{◌⧺◌}
use rond.Types.{elements, Resource, Binding, Role, User}

-- type PermissionsOnResourceMap map[PermissionOnResourceKey]bool
abbrev pub PermissionsOnResourceMap : Type 0
PermissionsOnResourceMap = Map Bool

unfoldable pub build_permission_on_resource_key : String → String → String → String
build_permission_on_resource_key permission resource_type resource_id =
    permission ⧺ ":" ⧺ resource_type ⧺ ":" ⧺ resource_id

-- The loop of `buildRolesMap`: a later role replaces an earlier one of the same id.
unfoldable pub roles_map_from : Map (List String) → List Role → Map (List String)
roles_map_from roles_map [] = roles_map
roles_map_from roles_map (role ∷ roles) =
    roles_map_from (insert role.role_id (elements role.permissions) roles_map) roles

unfoldable pub build_roles_map : List Role → Map (List String)
build_roles_map roles = roles_map_from [] roles

-- The innermost loops: each permission is listed under the key of the binding's resource.
unfoldable pub add_permissions :
    Option Resource → List String → PermissionsOnResourceMap → Result PermissionsOnResourceMap
add_permissions resource [] m = ok m
add_permissions none (permission ∷ permissions) m = panic
add_permissions (some r) (permission ∷ permissions) m =
    add_permissions (some r) permissions
      (insert (build_permission_on_resource_key permission r.resource_type r.resource_id) true m)

-- A role that the roles map does not hold is skipped.
unfoldable pub add_role :
    Map (List String)
    → Option Resource
    → String
    → PermissionsOnResourceMap
    → Result PermissionsOnResourceMap
add_role roles_map resource role m = elim (lookup role roles_map) [
  | none ↦ ok m
  | some role_permissions ↦ add_permissions resource role_permissions m
]

unfoldable pub add_roles :
    Map (List String)
    → Option Resource
    → List String
    → PermissionsOnResourceMap
    → Result PermissionsOnResourceMap
add_roles roles_map resource [] m = ok m
add_roles roles_map resource (role ∷ roles) m =
    add_role roles_map resource role m >>= λ m'. add_roles roles_map resource roles m'

unfoldable pub add_bindings :
    Map (List String) → List Binding → PermissionsOnResourceMap → Result PermissionsOnResourceMap
add_bindings roles_map [] m = ok m
add_bindings roles_map (binding ∷ bindings) m = do
  with_roles ← add_roles roles_map binding.resource binding.roles m
  with_permissions ← add_permissions binding.resource binding.permissions with_roles
  add_bindings roles_map bindings with_permissions

unfoldable pub build_optimized_resource_permissions_map : User → Result PermissionsOnResourceMap
build_optimized_resource_permissions_map user =
    add_bindings (build_roles_map user.user_roles) user.user_bindings []
