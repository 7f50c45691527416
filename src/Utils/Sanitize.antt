-- ===== src/Utils/Sanitize.antt =====
-- `SanitizeString` of internal/utils/general.go.
use rond.Prelude.{ℕ, String, false, ◌≡◌, refl, arith, eqb, Bool-cases, inl, inr}
use Prim.Native.Char.{code}
use text.Mathlib.TextLemmas.{nil-append}
use rond.Prelude.Text.{replace_all, holds}
use rond.Utils.{sanitize_string}

module _ (k : ℕ) where
  holds-replace_all_self : (s : String) → holds k (replace_all k "" s) ≡ false
  unfolding holds replace_all
  holds-replace_all_self String.[] = refl
  holds-replace_all_self (String.◌∷◌ c s) = elim (Bool-cases (eqb (code c) k)) [
    | inl e ↦ rw (e, nil-append) (holds-replace_all_self s)
    | inr e ↦ rw (e, e) (holds-replace_all_self s)
  ]

  holds-replace_all :
      (j : ℕ) (s : String) → holds j s ≡ false → holds j (replace_all k "" s) ≡ false
  unfolding holds replace_all
  holds-replace_all j String.[] h = refl
  holds-replace_all j (String.◌∷◌ c s) h = elim (Bool-cases (eqb (code c) k)) [
    | inl e ↦ rw (e, nil-append) (holds-replace_all j s (ground arith))
    | inr e ↦ rw e (ground (arith, holds-replace_all j s))
  ]

-- Without either character, nothing is taken out.
replace_all_of_not-holds : (k : ℕ) (s : String) → holds k s ≡ false → replace_all k "" s ≡ s
unfolding holds replace_all
replace_all_of_not-holds k String.[] h = refl
replace_all_of_not-holds k (String.◌∷◌ c s) h = ground (arith, replace_all_of_not-holds k s)

-- A sanitized text holds no line feed and no carriage return.
pub sanitize_string-no_line_ends :
    (s : String)
    → (holds b'\n' (sanitize_string s) ≡ false) × (holds b'\r' (sanitize_string s) ≡ false)
unfolding sanitize_string
sanitize_string-no_line_ends s = (
  holds-replace_all b'\r' b'\n' (replace_all b'\n' "" s) (holds-replace_all_self b'\n' s),
  holds-replace_all_self b'\r' (replace_all b'\n' "" s),
)

-- A text that holds no line ends is left as it is.
pub sanitize_string_id :
    (s : String) → holds b'\n' s ≡ false → holds b'\r' s ≡ false → sanitize_string s ≡ s
unfolding sanitize_string
sanitize_string_id s n r =
    rw (replace_all_of_not-holds b'\n' s n) (replace_all_of_not-holds b'\r' s r)
