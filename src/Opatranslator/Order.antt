-- ===== src/Opatranslator/Order.antt =====
-- The order of the operands of a call.
use mathlib.Core.Path.{fun_ext}
use rond.Prelude.{ap, Bool, List, [], ◌∷◌, ◌++◌, ◌≡◌, refl, map}
use rond.Prelude.Json.{Json, single, array}
use rond.Utils.{Lo}
use rond.Opatranslator.{
  process_query, process_body, process_bodies, and_then, use_operands, process_term,
}
use rond.Opatranslator.Comparisons.{Comparison, call_of, queries_of, process_expr-call_of}

-- The same comparisons with their operands in another order, where `order` says so.
abbrev pub reorder : (Comparison → Bool) → Comparison → Comparison
reorder order c = record c { swapped = order c }

module _ (lo : Lo) (order : Comparison → Bool) where
  process_body-reorder :
      (pipeline : List Json) (cs : List Comparison)
      → process_body lo pipeline (map call_of (map (reorder order) cs))
        ≡ process_body lo pipeline (map call_of cs)
  unfolding process_body
  process_body-reorder pipeline [] = refl
  process_body-reorder pipeline (c ∷ cs) =
      rw (process_expr-call_of lo pipeline c, process_expr-call_of lo pipeline (reorder order c))
        (ap (and_then (use_operands c.operator pipeline (c.value, process_term lo c.text)))
          (fun_ext (λ longer. process_body-reorder longer cs)))

  process_bodies-reorder :
      (queries : List Json) (bodies : List (List Comparison))
      → process_bodies lo queries (queries_of (map (map (reorder order)) bodies))
        ≡ process_bodies lo queries (queries_of bodies)
  unfolding process_bodies
  process_bodies-reorder queries [] = refl
  process_bodies-reorder queries (cs ∷ bodies) = rw (process_body-reorder [] cs) (
      ap (and_then (process_body lo [] (map call_of cs))) (
        fun_ext (λ pipeline.
          process_bodies-reorder (queries ++ single "$and" (array pipeline) ∷ []) bodies)))

-- The translation does not depend on the order of the operands: calls that differ in nothing else
-- have the same filter, so that an order between a value and a field is read as one between the
-- field and the value.
pub process_query-reorder :
    (lo : Lo) (order : Comparison → Bool) (bodies : List (List Comparison))
    → process_query lo (queries_of (map (map (reorder order)) bodies))
      ≡ process_query lo (queries_of bodies)
unfolding process_query
process_query-reorder lo order bodies = rw (process_bodies-reorder lo order [] bodies) refl
