-- ===== src/Openapi/PathVariables/Brackets.antt =====
-- `ConvertPathVariablesToBrackets` on path templates.
use Prim.Native.Char.{char, code}
use text.Mathlib.TextLemmas.{nil-append, cons-append, append_assoc, append-nil}
use rond.Prelude.{String, true, false, List, [], ◌∷◌, eqb, ◌≡◌, ◌≢◌, refl, sym, ap, ◌∙◌, arith, All}
use rond.Prelude.Text.{◌⧺◌, push, holds}
use rond.Openapi.PathVariables.{
  is_word, plain, slash, word, one, brackets_from, convert_path_variables_to_brackets,
}
use rond.Openapi.PathVariables.Segments.{
  Segment, literal, variable, all_word, starts_plain, IsSegment, with_brackets, with_colons,
  one-append, push-append, eq-empty_false,
}
use mathlib.Core.Bool.{and-eq-true_iff}

-- A slash begins a new part, whatever the mode writes before it.
brackets_stroke : (s : String) → brackets_from plain ("/" ⧺ s) ≡ brackets_from slash s
unfolding brackets_from
brackets_stroke s = rw (one-append (char 47 tt) s) (nil-append _)

brackets_slash_stroke : (s : String) → brackets_from slash ("/" ⧺ s) ≡ "/" ⧺ brackets_from slash s
unfolding brackets_from
brackets_slash_stroke s = rw (one-append (char 47 tt) s)

brackets_opening : (s : String) → brackets_from slash (":" ⧺ s) ≡ brackets_from (word "") s
unfolding brackets_from
brackets_opening s = rw (one-append (char 58 tt) s) (nil-append _)

-- Text without a slash is copied.
brackets_plain :
    (s rest : String)
    → holds b'/' s ≡ false
    → brackets_from plain (s ⧺ rest) ≡ s ⧺ brackets_from plain rest
unfolding brackets_from holds
brackets_plain String.[] rest h = simp nil-append
brackets_plain (String.◌∷◌ c s) rest h =
    let not_slash : eqb (code c) b'/' ≡ false = ground arith in
    rw (cons-append, cons-append, not_slash)
      (one-append c _ ∙ ap (String.◌∷◌ c) (brackets_plain s rest (ground arith)))

-- A word is gathered.
brackets_word :
    (w s rest : String)
    → all_word s ≡ true
    → brackets_from (word w) (s ⧺ rest) ≡ brackets_from (word (w ⧺ s)) rest
unfolding brackets_from
brackets_word w String.[] rest h = simp (nil-append, append-nil)
brackets_word w (String.◌∷◌ c s) rest h =
    let (here, later) = (and-eq-true_iff (is_word (code c)) (all_word s)).0 h in
    rw (cons-append c s rest, here)
      (nil-append _
        ∙ brackets_word (push w c) s rest later
        ∙ ap (λ t. brackets_from (word t) rest) (push-append w c s))

-- A part that does not begin like a variable is copied with its slash.
brackets_literal :
    (s rest : String)
    → holds b'/' s ≡ false
    → starts_plain s ≡ true
    → brackets_from slash rest ≡ "/" ⧺ brackets_from plain rest
    → brackets_from slash (s ⧺ rest) ≡ "/" ⧺ s ⧺ brackets_from plain rest
unfolding brackets_from holds
brackets_literal String.[] rest h p e = simp nil-append e
brackets_literal (String.◌∷◌ c s) rest h p e =
    let not_slash : eqb (code c) b'/' ≡ false = ground arith in
    let not_open : eqb (code c) 58 ≡ false = ground arith in
    rw (cons-append c s rest, not_open, not_slash)
      (append_assoc "/" (one c) _
        ∙ ap (λ t. "/" ⧺ t)
            (one-append c _
              ∙ ap (String.◌∷◌ c) (brackets_plain s rest (ground arith))
              ∙ sym (cons-append c s _)))

-- What stands behind a part is nothing or a slash.
brackets_rest :
    (segments : List Segment)
    → brackets_from slash (with_colons segments) ≡ "/" ⧺ brackets_from plain (with_colons segments)
brackets_rest [] = unfold brackets_from in refl
brackets_rest (literal s ∷ segments) =
    brackets_slash_stroke _ ∙ ap (λ t. "/" ⧺ t) (sym (brackets_stroke _))
brackets_rest (variable s ∷ segments) =
    brackets_slash_stroke _ ∙ ap (λ t. "/" ⧺ t) (sym (brackets_stroke _))

brackets_word_stroke :
    (w s : String)
    → w ≢ ""
    → brackets_from (word w) ("/" ⧺ s) ≡ "/" ⧺ "{" ⧺ w ⧺ "}" ⧺ brackets_from slash s
unfolding brackets_from
brackets_word_stroke w s h =
    rw (one-append (char 47 tt) s, eq-empty_false w h)
      (simp (append-nil, append_assoc) (append_assoc "/" "{" _))

-- A word ends there too.
brackets_closing :
    (w : String) (segments : List Segment)
    → w ≢ ""
    → brackets_from (word w) (with_colons segments)
      ≡ "/" ⧺ "{" ⧺ w ⧺ "}" ⧺ brackets_from plain (with_colons segments)
brackets_closing w [] h = unfold brackets_from in rw (eq-empty_false w h) (append_assoc "/" "{" _)
brackets_closing w (literal s ∷ segments) h =
    brackets_word_stroke w _ h ∙ ap (λ t. "/" ⧺ "{" ⧺ w ⧺ "}" ⧺ t) (sym (brackets_stroke _))
brackets_closing w (variable s ∷ segments) h =
    brackets_word_stroke w _ h ∙ ap (λ t. "/" ⧺ "{" ⧺ w ⧺ "}" ⧺ t) (sym (brackets_stroke _))

-- The colon notation becomes the bracket notation.
pub brackets-with_colons :
    (segments : List Segment)
    → All IsSegment segments
    → convert_path_variables_to_brackets (with_colons segments) ≡ with_brackets segments
unfolding convert_path_variables_to_brackets
brackets-with_colons [] h = refl
brackets-with_colons (literal s ∷ segments) ((no_slash, starts), h) =
    brackets_stroke _
    ∙ brackets_literal s _ no_slash starts (brackets_rest segments)
    ∙ ap (λ t. "/" ⧺ s ⧺ t) (brackets-with_colons segments h)
brackets-with_colons (variable s ∷ segments) ((is_word', ne), h) =
    brackets_stroke _
    ∙ brackets_opening _
    ∙ brackets_word "" s _ is_word'
    ∙ ap (λ t. brackets_from (word t) (with_colons segments)) (nil-append s)
    ∙ brackets_closing s segments ne
    ∙ ap (λ t. "/" ⧺ "{" ⧺ s ⧺ "}" ⧺ t) (brackets-with_colons segments h)
