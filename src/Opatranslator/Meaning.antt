-- ===== src/Opatranslator/Meaning.antt =====
-- What the filter of a query means to MongoDB.
use rond.Prelude.{
  not, ◌&&◌, ◌||◌, String, Bool, true, false, List, [], ◌∷◌, Option, none, some, ok, ◌≡◌, refl, map,
  ◌∙◌, ◌==◌, if◌then◌else◌, is_empty, All, arith, ap₂,
}
use rond.Prelude.Json.{Json, single, array}
use rond.Prelude.Map.{lookup}
use rond.Utils.{Lo}
use rond.Opatranslator.{process_query, process_term, range_operator_strategies, comparison}
use rond.Opatranslator.Comparisons.{
  Comparison, queries_of, IsTranslated, AreTranslated, BodiesTranslated, IsReadable, bodies_filters,
  conjunction, process_bodies-calls,
}

module _ {D : Type 0} (test : Json → D → Bool) (document : D) where
  abbrev pub all_match : List Json → Bool
  all_match [] = true
  all_match (f ∷ fs) = test f document && all_match fs

  abbrev pub any_match : List Json → Bool
  any_match [] = false
  any_match (f ∷ fs) = test f document || any_match fs

abbrev pub AreNonempty : List (List Comparison) → Type 0
AreNonempty [] = Unit
AreNonempty (b ∷ bs) = (is_empty b ≡ false) × AreNonempty bs

-- What MongoDB documents of the filters used, on documents `D`: the value of a field, and how two
-- values compare. `$and` and `$or` want a list that is not empty.
pub record Matching (D : Type 0) : Type 0 where
  pub matches : Json → D → Bool
  pub value_at : String → D → Json
  pub lt : Json → Json → Bool
  pub le : Json → Json → Bool
  pub same : Json → Json → Bool
  pub lt_lem :
      (f : String) (v : Json) (d : D) → matches (comparison "$lt" f v) d ≡ lt (value_at f d) v
  pub gt_lem :
      (f : String) (v : Json) (d : D) → matches (comparison "$gt" f v) d ≡ lt v (value_at f d)
  pub lte_lem :
      (f : String) (v : Json) (d : D) → matches (comparison "$lte" f v) d ≡ le (value_at f d) v
  pub gte_lem :
      (f : String) (v : Json) (d : D) → matches (comparison "$gte" f v) d ≡ le v (value_at f d)
  pub eq_lem :
      (f : String) (v : Json) (d : D) → matches (comparison "$eq" f v) d ≡ same (value_at f d) v
  pub ne_lem :
      (f : String) (v : Json) (d : D)
      → matches (comparison "$ne" f v) d ≡ not (same (value_at f d) v)
  pub and_lem :
      (f : Json) (fs : List Json) (d : D)
      → matches (single "$and" (array (f ∷ fs))) d ≡ all_match matches d (f ∷ fs)
  pub or_lem :
      (f : Json) (fs : List Json) (d : D)
      → matches (single "$or" (array (f ∷ fs))) d ≡ any_match matches d (f ∷ fs)

module _ {D : Type 0} (m : Matching D) where
  -- What Rego's operators say of two values.
  abbrev pub compare_values : String → Json → Json → Bool
  compare_values operator a b =
      if "lt" == operator
      then m.lt a b
      else if "gt" == operator
      then m.lt b a
      else if "lte" == operator
      then m.le a b
      else if "gte" == operator
      then m.le b a
      else if "eq" == operator
      then m.same a b
      else if "equal" == operator
      then m.same a b
      else if "neq" == operator
      then not (m.same a b)
      else false

  -- The field that a reference names, for the translator.
  abbrev pub field_of : Option (String × String) → String
  field_of none = ""
  field_of (some (_, field)) = field

  -- The comparison holds of a document, its field being the left operand.
  abbrev pub holds : Lo → D → Comparison → Bool
  holds lo d c =
      compare_values c.operator (m.value_at (field_of (process_term lo c.text)) d) c.value

  abbrev pub all_hold : Lo → D → List Comparison → Bool
  all_hold lo d [] = true
  all_hold lo d (c ∷ cs) = holds lo d c && all_hold lo d cs

  abbrev pub some_body_holds : Lo → D → List (List Comparison) → Bool
  some_body_holds lo d [] = false
  some_body_holds lo d (b ∷ bs) = all_hold lo d b || some_body_holds lo d bs

  known_meaning :
      (operator known field : String) (v : Json) (d : D)
      → lookup operator range_operator_strategies ≡ some known
      → m.matches (comparison known field v) d ≡ compare_values operator (m.value_at field d) v
  unfolding lookup
  known_meaning operator known field v d h = ground (
    arith,
    m.lt_lem field v d,
    m.gt_lem field v d,
    m.lte_lem field v d,
    m.gte_lem field v d,
    m.eq_lem field v d,
    m.ne_lem field v d,
  )

  matches-translated :
      (lo : Lo) (c : Comparison) (filter : Json) (d : D)
      → IsTranslated lo c filter
      → m.matches filter d ≡ holds lo d c
  matches-translated lo c filter d (operator, index, field, known, read, is) =
      rw (is, read) (known_meaning c.operator operator field c.value d known)

  all_match-translated :
      (lo : Lo) (cs : List Comparison) (filters : List Json) (d : D)
      → AreTranslated lo cs filters
      → all_match m.matches d filters ≡ all_hold lo d cs
  all_match-translated lo [] [] d t = refl
  all_match-translated lo [] (f ∷ fs) d t = absurd t
  all_match-translated lo (c ∷ cs) [] d t = absurd t
  all_match-translated lo (c ∷ cs) (f ∷ fs) d (t, ts) =
      ap₂ ◌&&◌ (matches-translated lo c f d t) (all_match-translated lo cs fs d ts)

  matches-conjunction :
      (lo : Lo) (cs : List Comparison) (filters : List Json) (d : D)
      → AreTranslated lo cs filters
      → is_empty cs ≡ false
      → m.matches (conjunction filters) d ≡ all_hold lo d cs
  matches-conjunction lo [] filters d t h = cc
  matches-conjunction lo (c ∷ cs) [] d t h = absurd t
  matches-conjunction lo (c ∷ cs) (f ∷ fs) d t h =
      m.and_lem f fs d ∙ all_match-translated lo (c ∷ cs) (f ∷ fs) d t

  any_match-translated :
      (lo : Lo) (bodies : List (List Comparison)) (filters : List (List Json)) (d : D)
      → BodiesTranslated lo bodies filters
      → AreNonempty bodies
      → any_match m.matches d (map conjunction filters) ≡ some_body_holds lo d bodies
  any_match-translated lo [] [] d t n = refl
  any_match-translated lo [] (f ∷ fs) d t n = absurd t
  any_match-translated lo (c ∷ cs) [] d t n = absurd t
  any_match-translated lo (c ∷ cs) (f ∷ fs) d (t, ts) (n, ns) =
      ap₂ ◌||◌ (matches-conjunction lo c f d t n) (any_match-translated lo cs fs d ts ns)

-- The query of calls that the translator reads, in bodies that are not empty, is translated, and
-- its filter matches exactly the documents for which, in some body, all comparisons hold with the
-- field as the left operand, in whatever order the operands of the call stand.
pub process_query-meaning :
    {D : Type 0} (m : Matching D) (lo : Lo) (bodies : List (List Comparison))
    → is_empty bodies ≡ false
    → AreNonempty bodies
    → All (All (IsReadable lo)) bodies
    → (filter : Json) × (process_query lo (queries_of bodies) ≡ ok (some filter))
      × ((d : D) → m.matches filter d ≡ some_body_holds m lo d bodies)
unfolding process_query
process_query-meaning m lo [] h n r = cc
process_query-meaning {D} m lo (b ∷ bodies) h n r =
    let (filters, t) = bodies_filters lo (b ∷ bodies) r in by_filters filters t
  where
    by_filters :
        (filters : List (List Json))
        → BodiesTranslated lo (b ∷ bodies) filters
        → (filter : Json) × (process_query lo (queries_of (b ∷ bodies)) ≡ ok (some filter))
          × ((d : D) → m.matches filter d ≡ some_body_holds m lo d (b ∷ bodies))
    by_filters [] t = absurd t
    by_filters (f ∷ fs) t = (
      single "$or" (array (map conjunction (f ∷ fs))),
      rw (process_bodies-calls lo [] (b ∷ bodies) (f ∷ fs) t) refl,
      (λ d.
          m.or_lem (conjunction f) (map conjunction fs) d
          ∙ any_match-translated m lo (b ∷ bodies) (f ∷ fs) d t n),
    )
