-- ===== src/Opatranslator/Empty.antt =====
-- When the translator reports an empty query.
use rond.Prelude.{
  String, false, List, [], ◌∷◌, ◌++◌, Option, none, some, Result, ok, err, panic, GoError, Sentinel,
  ◌≡◌, ◌↔◌, inl, inr, refl, sym, ap, ◌∙◌, Bool-cases, is_empty, eqb, length, ◌>>=◌,
}
use rond.Prelude.Json.{Json, single, array}
use rond.Utils.{Lo}
use rond.Opatranslator.{
  Term, constant, reference, Expr, PartialQueries, Read, Round, read_operands, process_expr,
  process_body, process_bodies, process_query, and_then, handled, use_operands, handle_operations,
  final_query, process_term,
}

-- An error, if it is one, wraps nothing.
abbrev IsPlain : {A : Type 0} → Result A → Type 0
IsPlain (ok a) = Unit
IsPlain (err e) = e.wraps ≡ none
IsPlain panic = Unit

bind-IsPlain :
    {A B : Type 0} (m : Result A) (f : A → Result B)
    → IsPlain m
    → ((a : A) → IsPlain (f a))
    → IsPlain (m >>= f)
bind-IsPlain (ok a) f p q = q a
bind-IsPlain (err e) f p q = p
bind-IsPlain panic f p q = tt

and_then-IsPlain :
    {A B : Type 0} (m : Round A) (f : A → Round B)
    → IsPlain m
    → ((a : A) → IsPlain (f a))
    → IsPlain (and_then m f)
and_then-IsPlain (ok (some a)) f p q = q a
and_then-IsPlain (ok none) f p q = tt
and_then-IsPlain (err e) f p q = p
and_then-IsPlain panic f p q = tt

read_operands-IsPlain :
    (lo : Lo) (terms : List Term) (read : Read) → IsPlain (read_operands lo terms read)
unfolding read_operands
read_operands-IsPlain lo [] read = tt
read_operands-IsPlain lo (constant (ok value) ∷ terms) (_, p) =
    read_operands-IsPlain lo terms (value, p)
read_operands-IsPlain lo (constant (err e) ∷ terms) read = refl
read_operands-IsPlain lo (constant panic ∷ terms) read = tt
read_operands-IsPlain lo (reference text ∷ terms) (value, _) =
    read_operands-IsPlain lo terms (value, process_term lo text)

handled-IsPlain : (operator : String) (o : Option (List Json)) → IsPlain (handled operator o)
handled-IsPlain operator none = refl
handled-IsPlain operator (some p) = tt

use_operands-IsPlain :
    (operator : String) (pipeline : List Json) (read : Read)
    → IsPlain (use_operands operator pipeline read)
use_operands-IsPlain operator pipeline (value, none) = tt
use_operands-IsPlain operator pipeline (value, some (index, field)) =
    handled-IsPlain operator (handle_operations operator pipeline field value)

process_expr-IsPlain :
    (lo : Lo) (pipeline : List Json) (expr : Expr) → IsPlain (process_expr lo pipeline expr)
unfolding process_expr
process_expr-IsPlain lo pipeline expr = elim (Bool-cases expr.is_call) [
  | inr e ↦ rw e tt
  | inl e ↦ rw e (elim (Bool-cases (eqb (length expr.operands) 2)) [
    | inr f ↦ rw f refl
    | inl f ↦ rw f (
        bind-IsPlain _ (use_operands expr.operator pipeline)
          (read_operands-IsPlain lo expr.operands _) (use_operands-IsPlain expr.operator pipeline))
  ])
]

process_body-IsPlain :
    (lo : Lo) (pipeline : List Json) (exprs : List Expr) → IsPlain (process_body lo pipeline exprs)
unfolding process_body
process_body-IsPlain lo pipeline [] = tt
process_body-IsPlain lo pipeline (expr ∷ exprs) =
    and_then-IsPlain (process_expr lo pipeline expr) (λ longer. process_body lo longer exprs)
      (process_expr-IsPlain lo pipeline expr) (λ longer. process_body-IsPlain lo longer exprs)

and_then_assoc :
    {A B C : Type 0} (m : Round A) (f : A → Round B) (g : B → Round C)
    → and_then (and_then m f) g ≡ and_then m (λ a. and_then (f a) g)
and_then_assoc (ok (some a)) f g = refl
and_then_assoc (ok none) f g = refl
and_then_assoc (err e) f g = refl
and_then_assoc panic f g = refl

not_empty-append : (queries : List Json) (q : Json) → is_empty (queries ++ q ∷ []) ≡ false
not_empty-append [] q = refl
not_empty-append (p ∷ queries) q = refl

final_query-IsPlain :
    (queries : List Json) → is_empty queries ≡ false → IsPlain (final_query queries)
final_query-IsPlain [] h = cc
final_query-IsPlain (q ∷ queries) h = tt

-- The rest of the translation of a body and of those behind it.
from_bodies : Lo → List Json → PartialQueries → Round Json
from_bodies lo queries bodies = and_then (process_bodies lo queries bodies) final_query

from_bodies-cons :
    (lo : Lo) (queries : List Json) (body : List Expr) (bodies : PartialQueries)
    → from_bodies lo queries (body ∷ bodies)
      ≡ and_then
          (process_body lo [] body)
          (λ pipeline. from_bodies lo (queries ++ single "$and" (array pipeline) ∷ []) bodies)
unfolding process_bodies from_bodies
from_bodies-cons lo queries body bodies =
    and_then_assoc (process_body lo [] body)
      (λ pipeline. process_bodies lo (queries ++ single "$and" (array pipeline) ∷ []) bodies)
      final_query

-- With a query collected, or one to come, the final query is not empty.
from_bodies-IsPlain :
    (lo : Lo) (queries : List Json) (bodies : PartialQueries)
    → is_empty queries ≡ false
    → IsPlain (from_bodies lo queries bodies)
unfolding from_bodies process_bodies
from_bodies-IsPlain lo queries [] h = final_query-IsPlain queries h
from_bodies-IsPlain lo queries (body ∷ bodies) h = rw (from_bodies-cons lo queries body bodies) (
    and_then-IsPlain (process_body lo [] body) _ (process_body-IsPlain lo [] body) (λ pipeline.
      from_bodies-IsPlain lo (queries ++ single "$and" (array pipeline) ∷ []) bodies
        (not_empty-append queries _)))

with_body-IsPlain :
    (lo : Lo) (body : List Expr) (bodies : PartialQueries)
    → IsPlain (process_query lo (body ∷ bodies))
unfolding process_query from_bodies
with_body-IsPlain lo body bodies = rw (from_bodies-cons lo [] body bodies) (
    and_then-IsPlain (process_body lo [] body) _ (process_body-IsPlain lo [] body)
      (λ pipeline. from_bodies-IsPlain lo (single "$and" (array pipeline) ∷ []) bodies refl))

IsPlain-err : {A : Type 0} (m : Result A) (e : GoError) → IsPlain m → m ≡ err e → e.wraps ≡ none
IsPlain-err (ok a) e p h = cc
IsPlain-err {A} (err f) e p h = ap wraps_of (sym h) ∙ p
  where
    wraps_of : Result A → Option Sentinel
    wraps_of (err g) = g.wraps
    wraps_of _ = none
IsPlain-err panic e p h = cc

-- The translator's error is that of an empty query, which the handler answers by an empty list,
-- exactly if the partial evaluation leaves no queries.
pub process_query-empty_iff :
    (lo : Lo) (pq : PartialQueries)
    → ((e : GoError) × (process_query lo pq ≡ err e) × (e.wraps ≡ some Sentinel.empty_query))
      ↔ (pq ≡ [])
unfolding process_query process_bodies
process_query-empty_iff lo [] = ((λ h. refl), (λ h. (_, refl, refl)))
process_query-empty_iff lo (body ∷ bodies) =
    ((λ (e, p, w). let k = IsPlain-err _ e (with_body-IsPlain lo body bodies) p in cc), (λ h. cc))
