-- ===== src/Opatranslator.antt =====
-- internal/opatranslator: the queries that a partial evaluation leaves become a MongoDB filter.
pub mod Comparisons
pub mod Meaning
pub mod Unfiltered
pub mod Empty
pub mod Order
use rond.Prelude.{
  ℕ, String, Bool, List, [], ◌∷◌, ◌++◌, Option, none, some, Result, ok, err, panic, Sentinel,
  error_text, if◌then◌else◌, ◌>>=◌, length, eqb, ltb,
}
use rond.Prelude.Map.{Map, lookup}
use rond.Prelude.Text.{◌⧺◌, split, join}
use rond.Prelude.Json.{Json, null, single, array}
use rond.Utils.{Lo}

-- What the translator reads of an operand: whether it is a constant, with what `ast.JSON` makes of
-- it, or else its text.
pub data Term : Type 0 where
  constant : Result Json → Term
  reference : String → Term

-- What it reads of an expression: `IsCall`, the text of `Operator` and the `Operands`.
pub record Expr : Type 0 where
  pub is_call : Bool
  pub operator : String
  pub operands : List Term

-- rego.PartialQueries, as its `Queries`.
abbrev pub PartialQueries : Type 0
PartialQueries = List (List Expr)

abbrev pub first_text : List String → String
first_text [] = ""
first_text (s ∷ ss) = s

-- `removeOpenBrace`: the text before the first bracket.
unfoldable pub remove_open_brace : String → String
remove_open_brace input = first_text (split b'[' input)

abbrev pub minimum_result_length : ℕ
minimum_result_length = 3

-- The name of the collection and the path of the field: the second part, and all behind it.
abbrev pub index_and_field : List String → Option (String × String)
index_and_field (base ∷ (index ∷ (field ∷ rest))) = some (index, join "." (field ∷ rest))
index_and_field _ = none

-- `processTerm`: `none` is a term of fewer parts than `minimumResultLength`.
unfoldable pub process_term : Lo → String → Option (String × String)
process_term lo query =
    let result = lo.map_text remove_open_brace (split b'.' query) in
    if ltb (length result) minimum_result_length then none else index_and_field result

-- The operators that `rangeOperatorStrategies` knows, with those of their MongoDB filters.
abbrev pub range_operator_strategies : Map String
range_operator_strategies =
    ("lt", "$lt")
    ∷ ("gt", "$gt")
    ∷ ("lte", "$lte")
    ∷ ("gte", "$gte")
    ∷ ("eq", "$eq")
    ∷ ("equal", "$eq")
    ∷ ("neq", "$ne")
    ∷ []

-- `HandleEquals` and its fellows: one more filter in the pipeline.
abbrev pub comparison : String → String → Json → Json
comparison operator field_name field_value = single field_name (single operator field_value)

-- `HandleOperations`: `none` where the operator is not known.
unfoldable pub handle_operations : String → List Json → String → Json → Option (List Json)
handle_operations operation pipeline field_name field_value =
    elim (lookup operation range_operator_strategies) [
      | none ↦ none
      | some operator ↦ some (pipeline ++ comparison operator field_name field_value ∷ [])
    ]

-- The value and the term that the loop over the operands leaves: the last of each kind.
abbrev pub Read : Type 0
Read = Json × Option (String × String)

unfoldable pub read_operands : Lo → List Term → Read → Result Read
read_operands lo [] read = ok read
read_operands lo (constant (ok value) ∷ terms) (_, processed_term) =
    read_operands lo terms (value, processed_term)
read_operands lo (constant (err e) ∷ terms) read =
    err (error_text ("error converting term to JSON: " ⧺ e.message))
read_operands lo (constant panic ∷ terms) read = panic
read_operands lo (reference text ∷ terms) (value, _) =
    read_operands lo terms (value, process_term lo text)

-- What one round of a loop does: it goes on with a pipeline, or the function returns a nil map and
-- no error.
abbrev pub Round : Type 0 → Type 0
Round A = Result (Option A)

abbrev pub handled : String → Option (List Json) → Round (List Json)
handled operator none = err (error_text ("invalid expression: operator not supported: " ⧺ operator))
handled operator (some pipeline) = ok (some pipeline)

abbrev pub use_operands : String → List Json → Read → Round (List Json)
use_operands operator pipeline (value, none) = ok none
use_operands operator pipeline (value, some (index, field)) =
    handled operator (handle_operations operator pipeline field value)

unfoldable pub process_expr : Lo → List Json → Expr → Round (List Json)
process_expr lo pipeline expr =
    if expr.is_call
    then (if eqb (length expr.operands) 2
        then (read_operands lo expr.operands (null, none) >>= use_operands expr.operator pipeline)
        else err (error_text "invalid expression: too many arguments"))
    else ok (some pipeline)

abbrev pub and_then : {A B : Type 0} → Round A → (A → Round B) → Round B
and_then (ok (some a)) f = f a
and_then (ok none) f = ok none
and_then (err e) f = err e
and_then panic f = panic

unfoldable pub process_body : Lo → List Json → List Expr → Round (List Json)
process_body lo pipeline [] = ok (some pipeline)
process_body lo pipeline (expr ∷ exprs) =
    and_then (process_expr lo pipeline expr) (λ longer. process_body lo longer exprs)

unfoldable pub process_bodies : Lo → List Json → PartialQueries → Round (List Json)
process_bodies lo queries [] = ok (some queries)
process_bodies lo queries (body ∷ bodies) =
    and_then (process_body lo [] body)
      (λ pipeline. process_bodies lo (queries ++ single "$and" (array pipeline) ∷ []) bodies)

abbrev pub final_query : List Json → Round Json
final_query [] = err (record {
  wraps = some Sentinel.empty_query;
  message = "empty query: RBAC policy evaluation and query generation failed";
})
final_query (q ∷ queries) = ok (some (single "$or" (array (q ∷ queries))))

-- `ProcessQuery`: `ok none` is a nil map without an error.
unfoldable pub process_query : Lo → PartialQueries → Round Json
process_query lo pq = and_then (process_bodies lo [] pq) final_query
