-- ===== src/Prelude/Lists.antt =====
-- Lists of texts as sets: a Boolean membership test and its laws.
use Prim.Native.Nat.{ℕ, suc}
use Prim.Native.String.{String}
use mathlib.Core.Path.{◌≡◌, refl, sym, ap, ◌∙◌}
use mathlib.Core.Logic.{◌↔◌, ◌⊎◌, inl, inr}
use mathlib.Core.Bool.{Bool, true, false, ◌||◌}
use mathlib.Core.List.{List, [], ◌∷◌, ◌++◌, Memᴰ, map}
use native.Mathlib.Omega.{arith}
use text.Mathlib.Text.{◌==◌}
use text.Mathlib.TextEquality.{eq_iff}
use text.Mathlib.TextPositions.{eq_refl}
use rond.Prelude.Tests.{Bool-cases, if◌then◌else◌}

module _ {ℓ} {A : Type ℓ} where
  abbrev pub length : List A → ℕ
  length [] = 0
  length (x ∷ xs) = suc (length xs)

  abbrev pub is_empty : List A → Bool
  is_empty [] = true
  is_empty (_ ∷ _) = false

  pub Memᴰ-append_left : {x : A} {xs : List A} (ys : List A) → Memᴰ x xs → Memᴰ x (xs ++ ys)
  Memᴰ-append_left ys (Memᴰ.head e) = Memᴰ.head e
  Memᴰ-append_left ys (Memᴰ.tail m) = Memᴰ.tail (Memᴰ-append_left ys m)

  pub Memᴰ-append_right : {x : A} (xs : List A) {ys : List A} → Memᴰ x ys → Memᴰ x (xs ++ ys)
  Memᴰ-append_right [] m = m
  Memᴰ-append_right (y ∷ xs) m = Memᴰ.tail (Memᴰ-append_right xs m)

  pub Memᴰ-append : {x : A} (xs : List A) {ys : List A} → Memᴰ x (xs ++ ys) → Memᴰ x xs ⊎ Memᴰ x ys
  Memᴰ-append [] m = inr m
  Memᴰ-append (y ∷ xs) (Memᴰ.head e) = inl (Memᴰ.head e)
  Memᴰ-append (y ∷ xs) (Memᴰ.tail m) = elim (Memᴰ-append xs m) [
    | inl l ↦ inl (Memᴰ.tail l)
    | inr r ↦ inr r
  ]

module _ {ℓ κ} {A : Type ℓ} (P : A → Type κ) where
  abbrev pub All : List A → Type κ
  All [] = Unit
  All (x ∷ xs) = P x × All xs

module _ {ℓ κ} {A : Type ℓ} {B : Type κ} (f : A → B) where
  pub Memᴰ-map : {y : B} (xs : List A) → Memᴰ y (map f xs) → (x : A) × Memᴰ x xs × (f x ≡ y)
  Memᴰ-map [] m = elim m [ ]
  Memᴰ-map (x ∷ xs) (Memᴰ.head e) = (x, Memᴰ.head refl, sym e)
  Memᴰ-map (x ∷ xs) (Memᴰ.tail m) = let (z, at_z, e) = Memᴰ-map xs m in (z, Memᴰ.tail at_z, e)

  pub Memᴰ-map_of : {y : B} {x : A} (xs : List A) → Memᴰ x xs → f x ≡ y → Memᴰ y (map f xs)
  Memᴰ-map_of [] m e = elim m [ ]
  Memᴰ-map_of (z ∷ xs) (Memᴰ.head p) e = Memᴰ.head (sym e ∙ ap f p)
  Memᴰ-map_of (z ∷ xs) (Memᴰ.tail m) e = Memᴰ.tail (Memᴰ-map_of xs m e)

-- Whether a text is in a list.
unfoldable pub elem : String → List String → Bool
elem x [] = false
elem x (y ∷ ys) = y == x || elem x ys

pub elem-nil : (x : String) → elem x [] ≡ false
unfolding elem
elem-nil x = refl

pub elem-cons : (x y : String) (ys : List String) → elem x (y ∷ ys) ≡ (y == x || elem x ys)
unfolding elem
elem-cons x y ys = refl

pub elem-append : (x : String) (xs ys : List String) → elem x (xs ++ ys) ≡ (elem x xs || elem x ys)
unfolding elem
elem-append x [] ys = refl
elem-append x (y ∷ xs) ys = ground (arith, elem-append x xs ys)

pub Memᴰ_of_elem : (x : String) (xs : List String) → elem x xs ≡ true → Memᴰ x xs
unfolding elem
Memᴰ_of_elem x [] h = cc
Memᴰ_of_elem x (y ∷ ys) h = elim (Bool-cases (y == x)) [
  | inl e ↦ Memᴰ.head (sym ((eq_iff y x).0 e))
  | inr e ↦ Memᴰ.tail (Memᴰ_of_elem x ys (ground arith))
]

pub elem_of_Memᴰ : (x : String) (xs : List String) → Memᴰ x xs → elem x xs ≡ true
unfolding elem
elem_of_Memᴰ x [] m = elim m [ ]
elem_of_Memᴰ x (y ∷ ys) (Memᴰ.head e) = rw (← e, eq_refl x)
elem_of_Memᴰ x (y ∷ ys) (Memᴰ.tail m) = ground (arith, elem_of_Memᴰ x ys m)

pub elem_iff : (x : String) (xs : List String) → (elem x xs ≡ true) ↔ Memᴰ x xs
elem_iff x xs = (Memᴰ_of_elem x xs, elem_of_Memᴰ x xs)

-- No text stands twice.
abbrev pub IsDistinct : List String → Type 0
IsDistinct [] = Unit
IsDistinct (x ∷ xs) = (elem x xs ≡ false) × IsDistinct xs

pub IsDistinct-concat :
    (xs : List String) (x : String) → IsDistinct xs → elem x xs ≡ false → IsDistinct (xs ++ x ∷ [])
unfolding elem
IsDistinct-concat [] x d h = (refl, tt)
IsDistinct-concat (y ∷ ys) x (n, d) h = (
  ground (arith, elem-append y ys (x ∷ []), eq_iff x y, eq_iff y x),
  IsDistinct-concat ys x d (ground arith),
)

-- The elements that pass a test, in their order.
module _ {ℓ} {A : Type ℓ} (test : A → Bool) where
  unfoldable pub keep : List A → List A
  keep [] = []
  keep (x ∷ xs) = let rest = keep xs in if test x then x ∷ rest else rest

  pub Memᴰ-keep : (x : A) (xs : List A) → Memᴰ x (keep xs) ↔ (Memᴰ x xs × (test x ≡ true))
  unfolding keep
  Memᴰ-keep x [] = ((λ m. elim m [ ]), (λ (m, _). elim m [ ]))
  Memᴰ-keep x (y ∷ ys) = elim (Bool-cases (test y)) [
    | inl e ↦ rw e (
      (λ m. elim m [
        | Memᴰ.head p ↦ (Memᴰ.head p, ap test p ∙ e)
        | Memᴰ.tail n ↦ let (k, t) = (Memᴰ-keep x ys).0 n in (Memᴰ.tail k, t)
      ]),
      (λ (m, t). elim m [
        | Memᴰ.head p ↦ Memᴰ.head p
        | Memᴰ.tail n ↦ Memᴰ.tail ((Memᴰ-keep x ys).1 (n, t))
      ]),
    )
    | inr e ↦ rw e (
      (λ m. let (k, t) = (Memᴰ-keep x ys).0 m in (Memᴰ.tail k, t)),
      (λ (m, t). elim m [
        | Memᴰ.head p ↦ let k = sym t ∙ ap test p ∙ e in cc
        | Memᴰ.tail n ↦ (Memᴰ-keep x ys).1 (n, t)
      ]),
    )
  ]

-- Some text is in both lists.
abbrev pub meet : List String → List String → Bool
meet [] ys = false
meet (x ∷ xs) ys = elem x ys || meet xs ys

pub meet_iff : (xs ys : List String) → (meet xs ys ≡ true) ↔ ((x : String) × Memᴰ x xs × Memᴰ x ys)
meet_iff [] ys = ((λ h. cc), (λ (x, m, _). elim m [ ]))
meet_iff (x ∷ xs) ys = elim (Bool-cases (elem x ys)) [
  | inl e ↦ rw e ((λ h. (x, Memᴰ.head refl, Memᴰ_of_elem x ys e)), (λ h. refl))
  | inr e ↦ rw e (
    (λ h. let (y, m, n) = (meet_iff xs ys).0 h in (y, Memᴰ.tail m, n)),
    (λ (y, m, n). elim m [
      | Memᴰ.head p ↦ let k = sym (elem_of_Memᴰ y ys n) ∙ ap (λ z. elem z ys) p ∙ e in cc
      | Memᴰ.tail q ↦ (meet_iff xs ys).1 (y, q, n)
    ]),
  )
]
