-- ===== src/Opatranslator/Unfiltered.antt =====
-- When the translator gives no filter and no error.
use rond.Prelude.{
  String, List, [], ◌∷◌, ◌++◌, none, some, ok, ◌≡◌, ◌↔◌, ◌⊎◌, inl, inr, refl, map, ◌∙◌, All, Memᴰ,
  sym, ap, Option-cases,
}
use mathlib.Core.Path.{subst}
use rond.Prelude.Json.{Json}
use rond.Prelude.Map.{lookup}
use rond.Utils.{Lo}
use rond.Opatranslator.{
  process_query, process_term, process_body, process_bodies, process_expr,
  range_operator_strategies, use_operands, handle_operations, final_query, comparison,
}
use rond.Opatranslator.Comparisons.{
  Comparison, call_of, queries_of, conjunction, process_expr-call_of,
}

abbrev pub IsKnown : Comparison → Type 0
IsKnown c = (operator : String) × (lookup c.operator range_operator_strategies ≡ some operator)

-- Some comparison has a reference without a field.
abbrev pub HasShort : Lo → List Comparison → Type 0
HasShort lo cs = (c : Comparison) × Memᴰ c cs × (process_term lo c.text ≡ none)

abbrev pub SomeHasShort : Lo → List (List Comparison) → Type 0
SomeHasShort lo bodies = (cs : List Comparison) × Memᴰ cs bodies × HasShort lo cs

process_expr-short :
    (lo : Lo) (pipeline : List Json) (c : Comparison)
    → process_term lo c.text ≡ none
    → process_expr lo pipeline (call_of c) ≡ ok none
process_expr-short lo pipeline c short =
    process_expr-call_of lo pipeline c ∙ rw (short, use_operands) refl

process_expr-read :
    (lo : Lo) (pipeline : List Json) (c : Comparison) (read : String × String)
    → IsKnown c
    → process_term lo c.text ≡ some read
    → (longer : List Json) × (process_expr lo pipeline (call_of c) ≡ ok (some longer))
unfolding handle_operations
process_expr-read lo pipeline c (index, field) (operator, known) read = (
  pipeline ++ comparison operator field c.value ∷ [],
  process_expr-call_of lo pipeline c ∙ rw (read, use_operands, handle_operations, known) refl,
)

-- A body is left at a reference without a field, or it is translated.
process_body-cases :
    (lo : Lo) (pipeline : List Json) (cs : List Comparison)
    → All IsKnown cs
    → ((process_body lo pipeline (map call_of cs) ≡ ok none) × HasShort lo cs)
      ⊎ ((longer : List Json) × (process_body lo pipeline (map call_of cs) ≡ ok (some longer))
          × (HasShort lo cs → ⊥))
unfolding process_body
process_body-cases lo pipeline [] known = inr (pipeline, refl, (λ (c, m, _). elim m [ ]))
process_body-cases lo pipeline (c ∷ cs) (known, rest) =
    elim (Option-cases (process_term lo c.text)) [
      | inl short ↦
          inl (rw (process_expr-short lo pipeline c short) refl, (c, Memᴰ.head refl, short))
      | inr (read, is_read) ↦
          let (longer, e) = process_expr-read lo pipeline c read known is_read in
          rw e (elim (process_body-cases lo longer cs rest) [
            | inl (p, (d, m, s)) ↦ inl (p, (d, Memᴰ.tail m, s))
            | inr (l, p, has_none) ↦ inr (l, p, (λ short. not_here c cs is_read has_none short))
          ])
    ]
  where
    not_here :
        (c : Comparison) (cs : List Comparison) {read : String × String}
        → process_term lo c.text ≡ some read
        → (HasShort lo cs → ⊥)
        → HasShort lo (c ∷ cs)
        → ⊥
    not_here c cs is_read has_none (d, Memᴰ.head e, s) =
        let k = sym is_read ∙ ap (λ x. process_term lo x.text) (sym e) ∙ s in cc
    not_here c cs is_read has_none (d, Memᴰ.tail m, s) = has_none (d, m, s)

process_bodies-cases :
    (lo : Lo) (queries : List Json) (bodies : List (List Comparison))
    → All (All IsKnown) bodies
    → ((process_bodies lo queries (queries_of bodies) ≡ ok none) × SomeHasShort lo bodies)
      ⊎ ((longer : List Json) × (process_bodies lo queries (queries_of bodies) ≡ ok (some longer))
          × (SomeHasShort lo bodies → ⊥))
unfolding process_bodies
process_bodies-cases lo queries [] known = inr (queries, refl, (λ (c, m, _). elim m [ ]))
process_bodies-cases lo queries (cs ∷ bodies) (known, rest) =
    elim (process_body-cases lo [] cs known) [
      | inl (p, short) ↦ inl (rw p refl, (cs, Memᴰ.head refl, short))
      | inr (pipeline, p, has_none) ↦
          rw p (elim (process_bodies-cases lo (queries ++ conjunction pipeline ∷ []) bodies rest) [
            | inl (q, (ds, m, s)) ↦ inl (q, (ds, Memᴰ.tail m, s))
            | inr (l, q, none_left) ↦
                inr (l, q, (λ short. not_here cs bodies has_none none_left short))
          ])
    ]
  where
    not_here :
        (cs : List Comparison) (bodies : List (List Comparison))
        → (HasShort lo cs → ⊥)
        → (SomeHasShort lo bodies → ⊥)
        → SomeHasShort lo (cs ∷ bodies)
        → ⊥
    not_here cs bodies has_none none_left (ds, Memᴰ.head e, s) = has_none (subst (HasShort lo) e s)
    not_here cs bodies has_none none_left (ds, Memᴰ.tail m, s) = none_left (ds, m, s)

final_query-some : (queries : List Json) → final_query queries ≡ ok none → ⊥
final_query-some [] h = cc
final_query-some (q ∷ queries) h = cc

-- On comparisons whose operators are known, the translator gives a nil query without an error
-- exactly if some reference has fewer parts than a collection and a field take.
pub process_query-none_iff :
    (lo : Lo) (bodies : List (List Comparison))
    → All (All IsKnown) bodies
    → (process_query lo (queries_of bodies) ≡ ok none) ↔ SomeHasShort lo bodies
unfolding process_query
process_query-none_iff lo bodies known = elim (process_bodies-cases lo [] bodies known) [
  | inl (p, short) ↦ ((λ _. short), (λ _. rw p refl))
  | inr (queries, p, has_none) ↦
      ((λ h. absurd (final_query-some queries (rw p at h))), (λ short. absurd (has_none short)))
]
