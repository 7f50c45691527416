-- ===== src/Tests/Translator.antt =====
-- The translation of queries.
use rond.Prelude.{
  ℕ, String, true, false, List, [], ◌∷◌, map, none, some, ok, err, GoError, Sentinel, ◌≡◌, ◌↔◌,
  refl,
}
use rond.Prelude.Json.{Json, int}
use rond.Prelude.Map.{lookup}
use rond.Prelude.Text.{split, join}
use rond.Opatranslator.{
  process_query, Expr, range_operator_strategies, process_term, remove_open_brace,
}
use rond.Opatranslator.Comparisons.{Comparison, queries_of, IsReadable}
use rond.Opatranslator.Meaning.{some_body_holds, process_query-meaning}
use rond.Opatranslator.Unfiltered.{SomeHasShort, process_query-none_iff}
use rond.Opatranslator.Empty.{process_query-empty_iff}
use rond.Opatranslator.Order.{reorder, process_query-reorder}
use rond.Tests.Fixtures.{simple_lo}
use rond.Tests.Documents.{numbers, test}

abbrev age : String → ℕ → Comparison
age operator n = record {
  operator = operator;
  text = "data.resources[_].age";
  value = int n;
  swapped = false;
}

abbrev adults : List (List Comparison)
adults = (age "gte" 18 ∷ age "lt" 65 ∷ []) ∷ (age "eq" 7 ∷ []) ∷ []

age_term : process_term simple_lo "data.resources[_].age" ≡ some ("resources", "age")
unfolding process_term remove_open_brace split join
age_term = refl

known_gte : IsReadable simple_lo (age "gte" 18)
unfolding lookup
known_gte = ("$gte", "resources", "age", refl, age_term)

known_lt : IsReadable simple_lo (age "lt" 65)
unfolding lookup
known_lt = ("$lt", "resources", "age", refl, age_term)

known_eq : IsReadable simple_lo (age "eq" 7)
unfolding lookup
known_eq = ("$eq", "resources", "age", refl, age_term)

process_query-meaning_example :
    (filter : Json) × (process_query simple_lo (queries_of adults) ≡ ok (some filter))
    × ((n : ℕ) → test filter n ≡ some_body_holds numbers simple_lo n adults)
process_query-meaning_example =
    process_query-meaning numbers simple_lo adults refl (refl, (refl, tt))
      ((known_gte, (known_lt, tt)), ((known_eq, tt), tt))

-- A reference to the resource itself.
abbrev short : List (List Comparison)
short = (record (age "eq" 7) { text = "data.resources[_]" } ∷ []) ∷ []

known : lookup "eq" range_operator_strategies ≡ some "$eq"
unfolding lookup
known = refl

process_query-none_iff_example :
    (process_query simple_lo (queries_of short) ≡ ok none) ↔ SomeHasShort simple_lo short
process_query-none_iff_example = process_query-none_iff simple_lo short ((("$eq", known), tt), tt)

process_query-empty_iff_example :
    ((e : GoError) × (process_query simple_lo [] ≡ err e) × (e.wraps ≡ some Sentinel.empty_query))
    ↔ (◌≡◌ {A = List (List Expr)} [] [])
process_query-empty_iff_example = process_query-empty_iff simple_lo []

process_query-reorder_example :
    process_query simple_lo (queries_of (map (map (reorder (λ c. true))) adults))
    ≡ process_query simple_lo (queries_of adults)
process_query-reorder_example = process_query-reorder simple_lo (λ c. true) adults
