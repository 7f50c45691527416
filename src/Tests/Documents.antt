-- ===== src/Tests/Documents.antt =====
-- MongoDB for the tests: a document is a number, which all its fields have as their value.
use rond.Prelude.{
  ℕ, String, Bool, true, false, not, ◌&&◌, ◌||◌, List, [], ◌∷◌, ◌≡◌, refl, ◌==◌, ltb, leb, eqb,
  if◌then◌else◌, ap,
}
use rond.Prelude.Json.{Json, int, arr, obj, Items, no_items, item, field, items, single, array}
use rond.Opatranslator.Meaning.{Matching, all_match, any_match}

abbrev pub compare_numbers : (ℕ → ℕ → Bool) → Json → Json → Bool
compare_numbers f (int a) (int b) = f a b
compare_numbers f a b = false

abbrev pub compare_by : String → Json → Json → Bool
compare_by operator a b =
    if operator == "$lt"
    then compare_numbers ltb a b
    else if operator == "$gt"
    then compare_numbers ltb b a
    else if operator == "$lte"
    then compare_numbers leb a b
    else if operator == "$gte"
    then compare_numbers leb b a
    else if operator == "$eq"
    then compare_numbers eqb a b
    else not (compare_numbers eqb a b)

unfoldable mutual
  pub test : Json → ℕ → Bool
  test (obj (field k (arr xs) fs)) d = if k == "$and" then test_all xs d else test_any xs d
  test (obj (field k (obj (field operator v fs)) gs)) d = compare_by operator (int d) v
  test j d = false

  pub test_all : Items → ℕ → Bool
  test_all no_items d = true
  test_all (item j js) d = test j d && test_all js d

  pub test_any : Items → ℕ → Bool
  test_any no_items d = false
  test_any (item j js) d = test j d || test_any js d

test_all-items : (fs : List Json) (d : ℕ) → test_all (items fs) d ≡ all_match test d fs
unfolding test_all
test_all-items [] d = refl
test_all-items (f ∷ fs) d = ap (λ b. test f d && b) (test_all-items fs d)

test_any-items : (fs : List Json) (d : ℕ) → test_any (items fs) d ≡ any_match test d fs
unfolding test_any
test_any-items [] d = refl
test_any-items (f ∷ fs) d = ap (λ b. test f d || b) (test_any-items fs d)

module _ (f : String) (v : Json) (d : ℕ) where
  pub test-lt : test (single f (single "$lt" v)) d ≡ compare_numbers ltb (int d) v
  unfolding test
  test-lt = refl

  pub test-gt : test (single f (single "$gt" v)) d ≡ compare_numbers ltb v (int d)
  unfolding test
  test-gt = refl

  pub test-lte : test (single f (single "$lte" v)) d ≡ compare_numbers leb (int d) v
  unfolding test
  test-lte = refl

  pub test-gte : test (single f (single "$gte" v)) d ≡ compare_numbers leb v (int d)
  unfolding test
  test-gte = refl

  pub test-eq : test (single f (single "$eq" v)) d ≡ compare_numbers eqb (int d) v
  unfolding test
  test-eq = refl

  pub test-ne : test (single f (single "$ne" v)) d ≡ not (compare_numbers eqb (int d) v)
  unfolding test
  test-ne = refl

pub test-and :
    (f : Json) (fs : List Json) (d : ℕ)
    → test (single "$and" (array (f ∷ fs))) d ≡ all_match test d (f ∷ fs)
unfolding test
test-and f fs d = test_all-items (f ∷ fs) d

pub test-or :
    (f : Json) (fs : List Json) (d : ℕ)
    → test (single "$or" (array (f ∷ fs))) d ≡ any_match test d (f ∷ fs)
unfolding test
test-or f fs d = test_any-items (f ∷ fs) d

abbrev pub numbers : Matching ℕ
numbers = record {
  matches = test;
  value_at = λ f d. int d;
  lt = compare_numbers ltb;
  le = compare_numbers leb;
  same = compare_numbers eqb;
  lt_lem = test-lt;
  gt_lem = test-gt;
  lte_lem = test-lte;
  gte_lem = test-gte;
  eq_lem = test-eq;
  ne_lem = test-ne;
  and_lem = test-and;
  or_lem = test-or;
}
