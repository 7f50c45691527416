-- ===== src/Http/Header.antt =====
-- http.Header: `Get` and `Set` pass a key through textproto.CanonicalMIMEHeaderKey.
use Prim.Native.Char.{Char, code}
use text.Mathlib.TextEquality.{Char-path}
use mathlib.Core.Bool.{and-eq-true_iff}
use rond.Prelude.{
  arith, ℕ, ◌+◌, ◌-◌, String, Bool, true, false, ◌&&◌, ◌||◌, List, [], ◌∷◌, Option, none, some, ◌≡◌,
  refl, if◌then◌else◌, eqb, leb, Bool-cases, inl, inr, ◌==◌, eq_iff, eq_refl,
}
use rond.Prelude.Map.{Map, lookup, insert, lookup-insert}
use rond.Prelude.Text.{upper_char, lower_char, is_lower, is_upper, code-upper_char, code-lower_char}

-- The bytes of an HTTP token.
abbrev pub is_token : ℕ → Bool
is_token n =
    eqb n 33
    || leb 35 n && leb n 39
    || leb 42 n && leb n 43
    || leb 45 n && leb n 46
    || leb 48 n && leb n 57
    || leb 65 n && leb n 90
    || leb 94 n && leb n 122
    || eqb n 124
    || eqb n 126

unfoldable pub all_tokens : String → Bool
all_tokens String.[] = true
all_tokens (String.◌∷◌ c s) = is_token (code c) && all_tokens s

-- A letter is a capital at the start and behind a dash.
unfoldable pub canonical_char : Bool → Char → Char
canonical_char upper c = if upper then upper_char c else lower_char c

unfoldable pub canonical_from : Bool → String → String
canonical_from upper String.[] = String.[]
canonical_from upper (String.◌∷◌ c s) =
    String.◌∷◌ (canonical_char upper c) (canonical_from (eqb (code c) b'-') s)

-- A key with another byte in it is left as it is.
unfoldable pub canonical : String → String
canonical key = if all_tokens key then canonical_from true key else key

code-canonical_char :
    (b : Bool) (c : Char)
    → code (canonical_char b c) ≡ (
        if b
        then (if is_lower (code c) then code c - 32 else code c)
        else (if is_upper (code c) then code c + 32 else code c))
unfolding canonical_char
code-canonical_char true c = code-upper_char c
code-canonical_char false c = code-lower_char c

module _ (b : Bool) (c : Char) where
  canonical_char_idem : canonical_char b (canonical_char b c) ≡ canonical_char b c
  canonical_char_idem =
      Char-path _ _
        (ground (arith, code-canonical_char b (canonical_char b c), code-canonical_char b c))

  is_dash-canonical_char : eqb (code (canonical_char b c)) b'-' ≡ eqb (code c) b'-'
  is_dash-canonical_char = ground (arith, code-canonical_char b c)

  is_token-canonical_char : is_token (code c) ≡ true → is_token (code (canonical_char b c)) ≡ true
  is_token-canonical_char h = ground (arith, code-canonical_char b c)

canonical_from_idem :
    (b : Bool) (s : String) → canonical_from b (canonical_from b s) ≡ canonical_from b s
unfolding canonical_from
canonical_from_idem b String.[] = refl
canonical_from_idem b (String.◌∷◌ c s) =
    rw (
      canonical_char_idem b c,
      is_dash-canonical_char b c,
      canonical_from_idem (eqb (code c) b'-') s,
    )

all_tokens-canonical_from :
    (b : Bool) (s : String) → all_tokens s ≡ true → all_tokens (canonical_from b s) ≡ true
unfolding canonical_from all_tokens
all_tokens-canonical_from b String.[] h = refl
all_tokens-canonical_from b (String.◌∷◌ c s) h =
    let (here, later) = (and-eq-true_iff (is_token (code c)) (all_tokens s)).0 h in
    rw (is_token-canonical_char b c here) (all_tokens-canonical_from (eqb (code c) b'-') s later)

-- A canonical key is its own canonical form.
pub canonical_idem : (key : String) → canonical (canonical key) ≡ canonical key
canonical_idem key = elim (Bool-cases (all_tokens key)) [
  | inl e ↦
      unfold canonical in
      rw e (rw (all_tokens-canonical_from true key e) (canonical_from_idem true key))
  | inr e ↦ unfold canonical in rw e (rw e)
]

abbrev pub Header : Type 0
Header = Map (List String)

abbrev pub first : Option (List String) → String
first none = ""
first (some []) = ""
first (some (v ∷ vs)) = v

-- headers.Get(key): the first value, or the empty text.
unfoldable pub get : Header → String → String
get headers key = first (lookup (canonical key) headers)

-- headers.Set(key, value)
unfoldable pub set : Header → String → String → Header
set headers key value = insert (canonical key) (value ∷ []) headers

pub get-set :
    (headers : Header) (key other value : String)
    → get (set headers key value) other
      ≡ (if canonical key == canonical other then value else get headers other)
unfolding get set
get-set headers key other value =
    rw lookup-insert (ground (arith, eq_iff (canonical key) (canonical other)))

pub get-set_self : (headers : Header) (key value : String) → get (set headers key value) key ≡ value
get-set_self headers key value = simp (get-set, eq_refl)

-- Names in another case are one header.
pub get-set-canonical :
    (headers : Header) (key value : String) → get (set headers key value) (canonical key) ≡ value
get-set-canonical headers key value = simp (get-set, canonical_idem, eq_refl)

canonical_tests : (canonical "content-TYPE" ≡ "Content-Type") × (canonical "a b" ≡ "a b")
unfolding canonical canonical_from canonical_char all_tokens upper_char lower_char
canonical_tests = (refl, refl)
