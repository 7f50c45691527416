-- ===== src/Service/Revoke/Prepared.antt =====
-- What revoking does to the bindings that were found.
use rond.Prelude.{
  String, Bool, true, false, not, ◌&&◌, List, [], ◌∷◌, ◌++◌, map, is_empty, if◌then◌else◌, ◌≡◌,
  refl, ◌∙◌, ◌↔◌, inl, inr, arith, elem, Bool-cases, Memᴰ, Memᴰ-map, Memᴰ-map_of, elem-nil,
  elem-cons, eq_refl,
}
use mathlib.Core.Path.{subst}
use mathlib.Core.List.{append-nil, append_assoc, Perm, perm_middle}
use mathlib.Core.List.Perm
use rond.Types.{Binding}
use rond.Utils.{Lo, filter_list}
use rond.Service.Revoke.{RevokeRequestBody, strip, prepare_from, prepare_bindings}

-- A binding that no subject and no group uses.
abbrev pub unused : Binding → Bool
unused b = is_empty b.subjects && is_empty b.groups

abbrev pub keep_if : (Binding → Bool) → List Binding → List Binding
keep_if p [] = []
keep_if p (b ∷ bs) = let rest = keep_if p bs in if p b then b ∷ rest else rest

module _ (lo : Lo) (req : RevokeRequestBody) where
  prepare_from_lem :
      (patch delete bs : List Binding)
      → prepare_from lo req patch delete bs ≡ (
        patch ++ keep_if (λ b. not (unused b)) (map (strip lo req) bs),
        delete ++ keep_if unused (map (strip lo req) bs),
      )
  unfolding prepare_from
  prepare_from_lem patch delete [] = simp append-nil
  prepare_from_lem patch delete (b ∷ bs) = elim (Bool-cases (unused (strip lo req b))) [
    | inl e ↦ rw e (prepare_from_lem patch (delete ++ strip lo req b ∷ []) bs ∙ simp append_assoc)
    | inr e ↦ rw e (prepare_from_lem (patch ++ strip lo req b ∷ []) delete bs ∙ simp append_assoc)
  ]

  -- The bindings found, each without what is revoked and in their order, are split into those that
  -- some subject or group still uses, which are patched, and the others, which are deleted.
  pub prepare_bindings_lem :
      (bs : List Binding)
      → prepare_bindings lo bs req ≡ (
        keep_if (λ b. not (unused b)) (map (strip lo req) bs),
        keep_if unused (map (strip lo req) bs),
      )
  unfolding prepare_bindings
  prepare_bindings_lem bs = prepare_from_lem [] [] bs

keep_if-perm :
    (p : Binding → Bool) (bs : List Binding) → Perm (keep_if (λ b. not (p b)) bs ++ keep_if p bs) bs
keep_if-perm p [] = Perm.refl []
keep_if-perm p (b ∷ bs) = elim (Bool-cases (p b)) [
  | inl e ↦ rw e (
      Perm.trans (perm_middle (keep_if (λ b. not (p b)) bs) (keep_if p bs))
        (Perm.cons b (keep_if-perm p bs)))
  | inr e ↦ rw e (Perm.cons b (keep_if-perm p bs))
]

Memᴰ-keep_if :
    (p : Binding → Bool) {c : Binding} (bs : List Binding)
    → Memᴰ c (keep_if p bs)
    → Memᴰ c bs × (p c ≡ true)
Memᴰ-keep_if p [] m = elim m [ ]
Memᴰ-keep_if p {c} (b ∷ bs) m = elim (Bool-cases (p b)) [
  | inl e ↦ at_head e (λ n. Memᴰ-keep_if p bs n) (rw e at m)
  | inr e ↦ let r = Memᴰ-keep_if p bs (rw e at m) in (Memᴰ.tail r.0, r.1)
]
  where
    at_head :
        p b ≡ true
        → (Memᴰ c (keep_if p bs) → Memᴰ c bs × (p c ≡ true))
        → Memᴰ c (b ∷ keep_if p bs)
        → Memᴰ c (b ∷ bs) × (p c ≡ true)
    at_head e later (Memᴰ.head q) = (Memᴰ.head q, rw q e)
    at_head e later (Memᴰ.tail n) = let r = later n in (Memᴰ.tail r.0, r.1)

Memᴰ-keep_if_of :
    (p : Binding → Bool) {c : Binding} (bs : List Binding)
    → Memᴰ c bs
    → p c ≡ true
    → Memᴰ c (keep_if p bs)
Memᴰ-keep_if_of p [] m h = elim m [ ]
Memᴰ-keep_if_of p (b ∷ bs) (Memᴰ.head q) h = rw (← q, h) (Memᴰ.head refl)
Memᴰ-keep_if_of p (b ∷ bs) (Memᴰ.tail m) h = elim (Bool-cases (p b)) [
  | inl e ↦ rw e (Memᴰ.tail (Memᴰ-keep_if_of p bs m h))
  | inr e ↦ rw e (Memᴰ-keep_if_of p bs m h)
]

-- Each binding found is either patched or deleted, once for each time it was found.
pub prepare_bindings-perm :
    (lo : Lo) (req : RevokeRequestBody) (bs : List Binding)
    → Perm
        ((prepare_bindings lo bs req).0 ++ (prepare_bindings lo bs req).1)
        (map (strip lo req) bs)
prepare_bindings-perm lo req bs =
    rw (prepare_bindings_lem lo req bs) (keep_if-perm unused (map (strip lo req) bs))

-- What stays of a binding: the subjects and groups that are not revoked, and all else.
pub record IsStripped (req : RevokeRequestBody) (b c : Binding) : Type 0 where
  pub binding_id : c.binding_id ≡ b.binding_id
  pub resource : c.resource ≡ b.resource
  pub roles : c.roles ≡ b.roles
  pub permissions : c.permissions ≡ b.permissions
  pub subjects : (x : String) → elem x c.subjects ≡ (elem x b.subjects && not (elem x req.subjects))
  pub groups : (x : String) → elem x c.groups ≡ (elem x b.groups && not (elem x req.groups))

strip-IsStripped :
    (lo : Lo) (req : RevokeRequestBody) (b : Binding) → IsStripped req b (strip lo req b)
unfolding strip filter_list
strip-IsStripped lo req b = record {
  binding_id = refl;
  resource = refl;
  roles = refl;
  permissions = refl;
  subjects = λ x. lo.difference_lem b.subjects req.subjects x;
  groups = λ x. lo.difference_lem b.groups req.groups x;
}

-- Every binding to patch is a binding found without the revoked subjects and groups, and some
-- subject or group is left in it.
pub prepare_bindings-patched :
    (lo : Lo) (req : RevokeRequestBody) (bs : List Binding) (c : Binding)
    → Memᴰ c (prepare_bindings lo bs req).0
    → (b : Binding) × Memᴰ b bs × IsStripped req b c × (unused c ≡ false)
prepare_bindings-patched lo req bs c m =
    let (found, used) =
      Memᴰ-keep_if (λ b. not (unused b)) (map (strip lo req) bs)
        (rw (prepare_bindings_lem lo req bs) at m) in
    let (b, listed, e) = Memᴰ-map (strip lo req) bs found in
    (b, listed, subst (λ d. IsStripped req b d) e (strip-IsStripped lo req b), ground arith)

elem_of_is_empty : (xs : List String) → is_empty xs ≡ true → (x : String) → elem x xs ≡ false
elem_of_is_empty [] h x = elem-nil x
elem_of_is_empty (y ∷ xs) h x = cc

is_empty_of_elem : (xs : List String) → ((x : String) → elem x xs ≡ false) → is_empty xs ≡ true
is_empty_of_elem [] h = refl
is_empty_of_elem (y ∷ xs) h = ground (arith, h y, elem-cons y y xs, eq_refl y)

abbrev pub AllRevoked : List String → List String → Type 0
AllRevoked held revoked = (x : String) → elem x held ≡ true → elem x revoked ≡ true

-- A binding found is deleted exactly if all its subjects and all its groups are revoked.
pub prepare_bindings-deleted_iff :
    (lo : Lo) (req : RevokeRequestBody) (bs : List Binding) (b : Binding)
    → Memᴰ b bs
    → Memᴰ (strip lo req b) (prepare_bindings lo bs req).1
      ↔ (AllRevoked b.subjects req.subjects × AllRevoked b.groups req.groups)
prepare_bindings-deleted_iff lo req bs b listed =
    let s = strip-IsStripped lo req b in
    (
      λ m.
          let (found, un) =
            Memᴰ-keep_if unused (map (strip lo req) bs)
              (rw (prepare_bindings_lem lo req bs) at m) in
          (
            λ x h.
                ground (
                  arith,
                  s.subjects x,
                  elem_of_is_empty (strip lo req b).subjects (ground arith) x,
                ),
            λ x h.
                ground
                  (arith, s.groups x, elem_of_is_empty (strip lo req b).groups (ground arith) x),
          ),
      λ h. rw (prepare_bindings_lem lo req bs) (
          Memᴰ-keep_if_of unused (map (strip lo req) bs) (Memᴰ-map_of (strip lo req) bs listed refl)
            (rw
              (is_empty_of_elem (strip lo req b).subjects
                (λ x. rw (s.subjects x) (ground (arith, h.0 x))))
              (is_empty_of_elem (strip lo req b).groups
                (λ x. rw (s.groups x) (ground (arith, h.1 x)))))),
    )
