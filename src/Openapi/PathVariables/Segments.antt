-- ===== src/Openapi/PathVariables/Segments.antt =====
-- Path templates as lists of segments, in the two notations for a variable.
use Prim.Native.Char.{Char, code}
use text.Mathlib.TextLemmas.{nil-append, cons-append, append_assoc}
use rond.Prelude.{
  String, Bool, true, false, not, ◌&&◌, List, [], ◌∷◌, eqb, ◌==◌, ◌≡◌, ◌≢◌, ap, ◌∙◌, arith, eq_iff,
}
use rond.Prelude.Text.{◌⧺◌, push, holds}
use rond.Openapi.PathVariables.{is_word, one}

-- A part of a path template.
pub data Segment : Type 0 where
  literal : String → Segment
  variable : String → Segment

abbrev pub all_word : String → Bool
all_word String.[] = true
all_word (String.◌∷◌ c s) = is_word (code c) && all_word s

abbrev pub starts_plain : String → Bool
starts_plain String.[] = true
starts_plain (String.◌∷◌ c s) = not (eqb (code c) b'{') && not (eqb (code c) b':')

-- A literal has no slash and does not begin like a variable; a variable's name is a word.
abbrev pub IsSegment : Segment → Type 0
IsSegment (literal s) = (holds b'/' s ≡ false) × (starts_plain s ≡ true)
IsSegment (variable s) = (all_word s ≡ true) × (s ≢ "")

abbrev pub with_brackets : List Segment → String
with_brackets [] = ""
with_brackets (literal s ∷ segments) = "/" ⧺ s ⧺ with_brackets segments
with_brackets (variable s ∷ segments) = "/" ⧺ "{" ⧺ s ⧺ "}" ⧺ with_brackets segments

abbrev pub with_colons : List Segment → String
with_colons [] = ""
with_colons (literal s ∷ segments) = "/" ⧺ s ⧺ with_colons segments
with_colons (variable s ∷ segments) = "/" ⧺ ":" ⧺ s ⧺ with_colons segments

pub one-append : (c : Char) (s : String) → one c ⧺ s ≡ String.◌∷◌ c s
one-append c s = cons-append c String.[] s ∙ ap (String.◌∷◌ c) (nil-append s)

pub push-append : (w : String) (c : Char) (s : String) → push w c ⧺ s ≡ w ⧺ String.◌∷◌ c s
push-append w c s = append_assoc w (one c) s ∙ ap (λ t. w ⧺ t) (one-append c s)

pub eq-empty_false : (w : String) → w ≢ "" → (w == "") ≡ false
eq-empty_false w h = ground (arith, eq_iff w "", h)
