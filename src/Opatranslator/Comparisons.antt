-- ===== src/Opatranslator/Comparisons.antt =====
-- The calls that the translator is meant for, one reference and one constant, and the filters that
-- it makes of them.
use mathlib.Core.List.{append-nil, append_assoc}
use rond.Prelude.{
  length, String, Bool, true, false, List, [], ◌∷◌, ◌++◌, none, some, ok, ◌≡◌, refl, All, map, ◌∙◌,
}
use rond.Prelude.Json.{Json, null, single, array}
use rond.Prelude.Map.{lookup}
use rond.Utils.{Lo}
use rond.Opatranslator.{
  Term, constant, reference, Expr, PartialQueries, process_term, range_operator_strategies,
  comparison, handle_operations, read_operands, process_expr, process_body, process_bodies,
  use_operands,
}

-- A comparison of a field with a value; `swapped` puts the value first.
pub record Comparison : Type 0 where
  pub operator : String
  pub text : String
  pub value : Json
  pub swapped : Bool

abbrev pub operands_of : Bool → String → Json → List Term
operands_of false text value = reference text ∷ constant (ok value) ∷ []
operands_of true text value = constant (ok value) ∷ reference text ∷ []

abbrev pub call_of : Comparison → Expr
call_of c = record {
  is_call = true;
  operator = c.operator;
  operands = operands_of c.swapped c.text c.value;
}

abbrev pub queries_of : List (List Comparison) → PartialQueries
queries_of bodies = map (map call_of) bodies

-- The translator knows the operator, and the reference has a field, so that this is the filter.
abbrev pub IsTranslated : Lo → Comparison → Json → Type 0
IsTranslated lo c filter =
    (operator index field : String) × (lookup c.operator range_operator_strategies ≡ some operator)
    × (process_term lo c.text ≡ some (index, field))
    × (filter ≡ comparison operator field c.value)

-- The same without the filter.
abbrev pub IsReadable : Lo → Comparison → Type 0
IsReadable lo c =
    (operator index field : String) × (lookup c.operator range_operator_strategies ≡ some operator)
    × (process_term lo c.text ≡ some (index, field))

abbrev pub AreTranslated : Lo → List Comparison → List Json → Type 0
AreTranslated lo [] [] = Unit
AreTranslated lo [] (f ∷ fs) = ⊥
AreTranslated lo (c ∷ cs) [] = ⊥
AreTranslated lo (c ∷ cs) (f ∷ fs) = IsTranslated lo c f × AreTranslated lo cs fs

abbrev pub BodiesTranslated : Lo → List (List Comparison) → List (List Json) → Type 0
BodiesTranslated lo [] [] = Unit
BodiesTranslated lo [] (f ∷ fs) = ⊥
BodiesTranslated lo (c ∷ cs) [] = ⊥
BodiesTranslated lo (c ∷ cs) (f ∷ fs) = AreTranslated lo c f × BodiesTranslated lo cs fs

body_filters :
    (lo : Lo) (cs : List Comparison)
    → All (IsReadable lo) cs
    → (fs : List Json) × AreTranslated lo cs fs
body_filters lo [] r = ([], tt)
body_filters lo (c ∷ cs) ((operator, index, field, known, read), r) =
    let (fs, t) = body_filters lo cs r in
    (comparison operator field c.value ∷ fs, ((operator, index, field, known, read, refl), t))

pub bodies_filters :
    (lo : Lo) (bodies : List (List Comparison))
    → All (All (IsReadable lo)) bodies
    → (fs : List (List Json)) × BodiesTranslated lo bodies fs
bodies_filters lo [] r = ([], tt)
bodies_filters lo (c ∷ cs) (r, rs) =
    let (f, t) = body_filters lo c r in let (fs, ts) = bodies_filters lo cs rs in (f ∷ fs, (t, ts))

abbrev pub conjunction : List Json → Json
conjunction filters = single "$and" (array filters)

-- The last reference and the last constant are read, so their order is lost.
read_operands-operands_of :
    (lo : Lo) (order : Bool) (text : String) (value : Json)
    → read_operands lo (operands_of order text value) (null, none)
      ≡ ok (value, process_term lo text)
unfolding read_operands
read_operands-operands_of lo true text value = refl
read_operands-operands_of lo false text value = refl

length-operands_of :
    (order : Bool) (text : String) (value : Json) → length (operands_of order text value) ≡ 2
length-operands_of true text value = refl
length-operands_of false text value = refl

pub process_expr-call_of :
    (lo : Lo) (pipeline : List Json) (c : Comparison)
    → process_expr lo pipeline (call_of c)
      ≡ use_operands c.operator pipeline (c.value, process_term lo c.text)
unfolding process_expr
process_expr-call_of lo pipeline c =
    rw
      (
        length-operands_of c.swapped c.text c.value,
        read_operands-operands_of lo c.swapped c.text c.value,
      )
      refl

process_expr-translated :
    (lo : Lo) (pipeline : List Json) (c : Comparison) (filter : Json)
    → IsTranslated lo c filter
    → process_expr lo pipeline (call_of c) ≡ ok (some (pipeline ++ filter ∷ []))
unfolding handle_operations
process_expr-translated lo pipeline c filter (operator, index, field, known, read, is) =
    process_expr-call_of lo pipeline c ∙ rw (read, use_operands, handle_operations, known, is) refl

pub process_body-calls :
    (lo : Lo) (pipeline : List Json) (cs : List Comparison) (filters : List Json)
    → AreTranslated lo cs filters
    → process_body lo pipeline (map call_of cs) ≡ ok (some (pipeline ++ filters))
unfolding process_body
process_body-calls lo pipeline [] [] t = rw (append-nil pipeline) refl
process_body-calls lo pipeline [] (f ∷ fs) t = absurd t
process_body-calls lo pipeline (c ∷ cs) [] t = absurd t
process_body-calls lo pipeline (c ∷ cs) (f ∷ fs) (t, ts) =
    rw (process_expr-translated lo pipeline c f t) (
      process_body-calls lo (pipeline ++ f ∷ []) cs fs ts
      ∙ rw (append_assoc pipeline (f ∷ []) fs) refl)

pub process_bodies-calls :
    (lo : Lo) (queries : List Json) (bodies : List (List Comparison)) (filters : List (List Json))
    → BodiesTranslated lo bodies filters
    → process_bodies lo queries (queries_of bodies) ≡ ok (some (queries ++ map conjunction filters))
unfolding process_bodies
process_bodies-calls lo queries [] [] t = rw (append-nil queries) refl
process_bodies-calls lo queries [] (f ∷ fs) t = absurd t
process_bodies-calls lo queries (c ∷ cs) [] t = absurd t
process_bodies-calls lo queries (c ∷ cs) (f ∷ fs) (t, ts) = rw (process_body-calls lo [] c f t) (
    process_bodies-calls lo (queries ++ conjunction f ∷ []) cs fs ts
    ∙ rw (append_assoc queries (conjunction f ∷ []) (map conjunction fs)) refl)
