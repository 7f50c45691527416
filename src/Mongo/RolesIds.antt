-- ===== src/Mongo/RolesIds.antt =====
-- The ids of the roles that bindings name: all of them, and each once.
use rond.Prelude.{
  String, List, [], ◌∷◌, ◌++◌, ◌↔◌, ◌⊎◌, inl, inr, Memᴰ, IsDistinct, IsDistinct-concat, elem_iff,
  Bool-cases, Memᴰ-append, Memᴰ-append_left, Memᴰ-append_right, sym, ◌∙◌, refl,
}
use mathlib.Core.Path.{subst}
use rond.Types.{Binding}
use rond.Utils.{Lo}
use rond.Mongo.{add_roles_ids, roles_ids_from, roles_ids_from_bindings}

-- Whether some binding names the role.
abbrev pub Names : List Binding → String → Type 0
Names bindings role = (b : Binding) × Memᴰ b bindings × Memᴰ role b.roles

module _ (lo : Lo) where
  add_roles_ids_lem :
      (ids roles : List String) (x : String)
      → Memᴰ x (add_roles_ids lo ids roles) ↔ (Memᴰ x ids ⊎ Memᴰ x roles)
  unfolding add_roles_ids
  add_roles_ids_lem ids [] x = (inl, λ m. elim m [ inl l ↦ l | inr r ↦ elim r [ ] ])
  add_roles_ids_lem ids (role ∷ roles) x = elim (Bool-cases (lo.contains ids role)) [
    | inl e ↦ rw e (
      (λ m. elim ((add_roles_ids_lem ids roles x).0 m) [
        | inl l ↦ inl l
        | inr r ↦ inr (Memᴰ.tail r)
      ]),
      (λ m. elim m [
        | inl l ↦ (add_roles_ids_lem ids roles x).1 (inl l)
        | inr (Memᴰ.head p) ↦ (add_roles_ids_lem ids roles x).1 (
            inl (
              subst (λ y. Memᴰ y ids) (sym p)
                ((elem_iff role ids).0 (sym (lo.contains_lem ids role) ∙ e))))
        | inr (Memᴰ.tail r) ↦ (add_roles_ids_lem ids roles x).1 (inr r)
      ]),
    )
    | inr e ↦ rw e (
      (λ m. elim ((add_roles_ids_lem (ids ++ role ∷ []) roles x).0 m) [
        | inl l ↦ elim (Memᴰ-append ids l) [
          | inl k ↦ inl k
          | inr (Memᴰ.head p) ↦ inr (Memᴰ.head p)
          | inr (Memᴰ.tail n) ↦ elim n [ ]
        ]
        | inr r ↦ inr (Memᴰ.tail r)
      ]),
      (λ m. elim m [
        | inl l ↦
            (add_roles_ids_lem (ids ++ role ∷ []) roles x).1 (inl (Memᴰ-append_left {xs = ids} _ l))
        | inr (Memᴰ.head p) ↦
            (add_roles_ids_lem (ids ++ role ∷ []) roles x).1
              (inl (Memᴰ-append_right ids (Memᴰ.head p)))
        | inr (Memᴰ.tail r) ↦ (add_roles_ids_lem (ids ++ role ∷ []) roles x).1 (inr r)
      ]),
    )
  ]

  add_roles_ids-IsDistinct :
      (ids roles : List String) → IsDistinct ids → IsDistinct (add_roles_ids lo ids roles)
  unfolding add_roles_ids
  add_roles_ids-IsDistinct ids [] d = d
  add_roles_ids-IsDistinct ids (role ∷ roles) d = elim (Bool-cases (lo.contains ids role)) [
    | inl e ↦ rw e (add_roles_ids-IsDistinct ids roles d)
    | inr e ↦ rw e (
        add_roles_ids-IsDistinct (ids ++ role ∷ []) roles
          (IsDistinct-concat ids role d (sym (lo.contains_lem ids role) ∙ e)))
  ]

  roles_ids_from_lem :
      (ids : List String) (bindings : List Binding) (x : String)
      → Memᴰ x (roles_ids_from lo ids bindings) ↔ (Memᴰ x ids ⊎ Names bindings x)
  unfolding roles_ids_from
  roles_ids_from_lem ids [] x = (inl, λ m. elim m [ inl l ↦ l | inr (b, n, _) ↦ elim n [ ] ])
  roles_ids_from_lem ids (b ∷ bs) x =
      let rest = roles_ids_from_lem (add_roles_ids lo ids b.roles) bs x in
      let here = add_roles_ids_lem ids b.roles x in
      (
        (λ m. elim (rest.0 m) [
          | inl l ↦ elim (here.0 l) [ inl k ↦ inl k | inr r ↦ inr (b, Memᴰ.head refl, r) ]
          | inr (c, n, r) ↦ inr (c, Memᴰ.tail n, r)
        ]),
        (λ m. elim m [
          | inl l ↦ rest.1 (inl (here.1 (inl l)))
          | inr (c, Memᴰ.head p, r) ↦ rest.1 (inl (here.1 (inr (subst (λ d. Memᴰ x d.roles) p r))))
          | inr (c, Memᴰ.tail n, r) ↦ rest.1 (inr (c, n, r))
        ]),
      )

  roles_ids_from-IsDistinct :
      (ids : List String) (bindings : List Binding)
      → IsDistinct ids
      → IsDistinct (roles_ids_from lo ids bindings)
  unfolding roles_ids_from
  roles_ids_from-IsDistinct ids [] d = d
  roles_ids_from-IsDistinct ids (b ∷ bs) d =
      roles_ids_from-IsDistinct (add_roles_ids lo ids b.roles) bs
        (add_roles_ids-IsDistinct ids b.roles d)

-- `RolesIDsFromBindings` gives exactly the ids of the roles that some binding names, and none of
-- them twice.
pub roles_ids_from_bindings_lem :
    (lo : Lo) (bindings : List Binding)
    → ((x : String) → Memᴰ x (roles_ids_from_bindings lo bindings) ↔ Names bindings x)
      × IsDistinct (roles_ids_from_bindings lo bindings)
unfolding roles_ids_from_bindings
roles_ids_from_bindings_lem lo bindings = (
  (λ x. (
    (λ m. elim ((roles_ids_from_lem lo [] bindings x).0 m) [ inl l ↦ elim l [ ] | inr n ↦ n ]),
    (λ n. (roles_ids_from_lem lo [] bindings x).1 (inr n)),
  )),
  roles_ids_from-IsDistinct lo [] bindings tt,
)
