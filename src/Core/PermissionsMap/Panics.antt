-- ===== src/Core/PermissionsMap/Panics.antt =====
-- When building the optimized permissions map of `core/opaevaluator.go` panics.
use rond.Prelude.{
  String, false, List, [], ◌∷◌, Option, none, some, panic, ◌≡◌, ◌↔◌, refl, ◌∙◌, arith, Memᴰ,
  Bool-cases, inl, inr,
}
use rond.Types.{Resource, Binding, User}
use rond.Core.PermissionsMap.{build_optimized_resource_permissions_map}
use rond.Core.PermissionsMap.Keys.{binding_permissions, readable, all_readable}
use rond.Core.PermissionsMap.Gives.{Gives, roles_map, Memᴰ-binding_permissions, build_lem}
use mathlib.Core.Bool.{and-false}

readable_of_Memᴰ : (p : String) (ps : List String) → Memᴰ p ps → readable none ps ≡ false
readable_of_Memᴰ p [] m = elim m [ ]
readable_of_Memᴰ p (q ∷ ps) m = refl

unreadable_parts :
    (r : Option Resource) (ps : List String)
    → readable r ps ≡ false
    → (r ≡ none) × ((p : String) × Memᴰ p ps)
unreadable_parts none [] h = cc
unreadable_parts none (p ∷ ps) h = (refl, (p, Memᴰ.head refl))
unreadable_parts (some r) ps h = cc

-- A binding of the user that has no resource to read and gives a permission.
pub record Unreadable (user : User) (bs : List Binding) : Type 0 where
  pub binding : Binding
  pub permission : String
  pub listed : Memᴰ binding bs
  pub off : binding.resource ≡ none
  pub gives : Gives user binding permission

module _ (user : User) where
  Unreadable-of_false :
      (bs : List Binding) → all_readable (roles_map user) bs ≡ false → Unreadable user bs
  unfolding all_readable
  Unreadable-of_false [] h = cc
  Unreadable-of_false (b ∷ bs) h =
      elim (Bool-cases (readable b.resource (binding_permissions (roles_map user) b))) [
        | inl e ↦
            let u = Unreadable-of_false bs (ground arith) in
            record {
              binding = u.binding;
              permission = u.permission;
              listed = Memᴰ.tail u.listed;
              off = u.off;
              gives = u.gives;
            }
        | inr e ↦
            let (off, held) = unreadable_parts b.resource _ e in
            record {
              binding = b;
              permission = held.0;
              listed = Memᴰ.head refl;
              off = off;
              gives = (Memᴰ-binding_permissions user b held.0).0 held.1;
            }
      ]

  false_of_Unreadable :
      (bs : List Binding) (b : Binding) (p : String)
      → Memᴰ b bs
      → b.resource ≡ none
      → Gives user b p
      → all_readable (roles_map user) bs ≡ false
  unfolding all_readable
  false_of_Unreadable [] b p m off g = elim m [ ]
  false_of_Unreadable (c ∷ bs) b p (Memᴰ.head q) off g =
      rw (← q, off, readable_of_Memᴰ p _ ((Memᴰ-binding_permissions user b p).1 g))
  false_of_Unreadable (c ∷ bs) b p (Memᴰ.tail m) off g =
      rw (false_of_Unreadable bs b p m off g, and-false)

-- Building the map panics exactly if some binding of the user has no resource and gives a
-- permission, its own or one of the last role listed under a name that the binding has.
pub build_optimized_resource_permissions_map-panic_iff :
    (user : User)
    → (build_optimized_resource_permissions_map user ≡ panic) ↔ Unreadable user user.user_bindings
build_optimized_resource_permissions_map-panic_iff user = (
  λ h.
      Unreadable-of_false user user.user_bindings
        (elim (Bool-cases (all_readable (roles_map user) user.user_bindings)) [
          | inl e ↦ cc (build_lem user, e)
          | inr e ↦ e
        ]),
  λ u.
      build_lem user
      ∙ rw (
          false_of_Unreadable user user.user_bindings u.binding u.permission u.listed u.off
            u.gives),
)
