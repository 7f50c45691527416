-- ===== src/Openapi/PathVariables/Colons.antt =====
-- `ConvertPathVariablesToColons` on path templates.
use Prim.Native.Char.{char, code}
use text.Mathlib.TextLemmas.{nil-append, cons-append, append_assoc, append-nil}
use rond.Prelude.{String, true, false, List, [], ◌∷◌, eqb, ◌≡◌, ◌≢◌, refl, sym, ap, ◌∙◌, arith, All}
use rond.Prelude.Text.{◌⧺◌, push, holds}
use rond.Openapi.PathVariables.{
  is_word, plain, slash, word, one, colons_from, convert_path_variables_to_colons,
}
use rond.Openapi.PathVariables.Segments.{
  Segment, literal, variable, all_word, starts_plain, IsSegment, with_brackets, with_colons,
  one-append, push-append, eq-empty_false,
}
use mathlib.Core.Bool.{and-eq-true_iff}

-- A slash begins a new part, whatever the mode writes before it.
colons_stroke : (s : String) → colons_from plain ("/" ⧺ s) ≡ colons_from slash s
unfolding colons_from
colons_stroke s = rw (one-append (char 47 tt) s) (nil-append _)

colons_slash_stroke : (s : String) → colons_from slash ("/" ⧺ s) ≡ "/" ⧺ colons_from slash s
unfolding colons_from
colons_slash_stroke s = rw (one-append (char 47 tt) s)

colons_opening : (s : String) → colons_from slash ("{" ⧺ s) ≡ colons_from (word "") s
unfolding colons_from
colons_opening s = rw (one-append (char 123 tt) s) (nil-append _)

-- Text without a slash is copied.
colons_plain :
    (s rest : String)
    → holds b'/' s ≡ false
    → colons_from plain (s ⧺ rest) ≡ s ⧺ colons_from plain rest
unfolding colons_from holds
colons_plain String.[] rest h = simp nil-append
colons_plain (String.◌∷◌ c s) rest h =
    let not_slash : eqb (code c) b'/' ≡ false = ground arith in
    rw (cons-append, cons-append, not_slash)
      (one-append c _ ∙ ap (String.◌∷◌ c) (colons_plain s rest (ground arith)))

-- A word is gathered.
colons_word :
    (w s rest : String)
    → all_word s ≡ true
    → colons_from (word w) (s ⧺ rest) ≡ colons_from (word (w ⧺ s)) rest
unfolding colons_from
colons_word w String.[] rest h = simp (nil-append, append-nil)
colons_word w (String.◌∷◌ c s) rest h =
    let (here, later) = (and-eq-true_iff (is_word (code c)) (all_word s)).0 h in
    rw (cons-append c s rest, here)
      (nil-append _
        ∙ colons_word (push w c) s rest later
        ∙ ap (λ t. colons_from (word t) rest) (push-append w c s))

-- A part that does not begin like a variable is copied with its slash.
colons_literal :
    (s rest : String)
    → holds b'/' s ≡ false
    → starts_plain s ≡ true
    → colons_from slash rest ≡ "/" ⧺ colons_from plain rest
    → colons_from slash (s ⧺ rest) ≡ "/" ⧺ s ⧺ colons_from plain rest
unfolding colons_from holds
colons_literal String.[] rest h p e = simp nil-append e
colons_literal (String.◌∷◌ c s) rest h p e =
    let not_slash : eqb (code c) b'/' ≡ false = ground arith in
    let not_open : eqb (code c) 123 ≡ false = ground arith in
    rw (cons-append c s rest, not_open, not_slash)
      (append_assoc "/" (one c) _
        ∙ ap (λ t. "/" ⧺ t)
            (one-append c _
              ∙ ap (String.◌∷◌ c) (colons_plain s rest (ground arith))
              ∙ sym (cons-append c s _)))

colons_closing :
    (w rest : String)
    → w ≢ ""
    → colons_from (word w) ("}" ⧺ rest) ≡ "/" ⧺ ":" ⧺ w ⧺ colons_from plain rest
unfolding colons_from
colons_closing w rest h =
    rw (one-append (char 125 tt) rest, eq-empty_false w h)
      (append_assoc "/:" w _ ∙ append_assoc "/" ":" _)

-- What stands behind a part is nothing or a slash.
colons_rest :
    (segments : List Segment)
    → colons_from slash (with_brackets segments) ≡ "/" ⧺ colons_from plain (with_brackets segments)
colons_rest [] = unfold colons_from in refl
colons_rest (literal s ∷ segments) =
    colons_slash_stroke _ ∙ ap (λ t. "/" ⧺ t) (sym (colons_stroke _))
colons_rest (variable s ∷ segments) =
    colons_slash_stroke _ ∙ ap (λ t. "/" ⧺ t) (sym (colons_stroke _))

-- The bracket notation becomes the colon notation.
pub colons-with_brackets :
    (segments : List Segment)
    → All IsSegment segments
    → convert_path_variables_to_colons (with_brackets segments) ≡ with_colons segments
unfolding convert_path_variables_to_colons
colons-with_brackets [] h = refl
colons-with_brackets (literal s ∷ segments) ((no_slash, starts), h) =
    colons_stroke _
    ∙ colons_literal s _ no_slash starts (colons_rest segments)
    ∙ ap (λ t. "/" ⧺ s ⧺ t) (colons-with_brackets segments h)
colons-with_brackets (variable s ∷ segments) ((is_word', ne), h) =
    colons_stroke _
    ∙ colons_opening _
    ∙ colons_word "" s _ is_word'
    ∙ ap (λ t. colons_from (word t) ("}" ⧺ with_brackets segments)) (nil-append s)
    ∙ colons_closing s _ ne
    ∙ ap (λ t. "/" ⧺ ":" ⧺ s ⧺ t) (colons-with_brackets segments h)
