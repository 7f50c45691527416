-- ===== src/Prelude/Text.antt =====
-- The functions of Go's `strings` package that the program calls, over native texts.
-- Letter case is that of ASCII.
use Prim.Native.Nat.{ℕ, zero, suc, ◌/◌, ◌%◌, ◌+◌, ◌-◌, ◌<◌, compare, Ordering}
use Prim.Native.Char.{Char, char, code, nul, IsScalar}
use mathlib.Core.Path.{◌≡◌}
use mathlib.Core.Logic.{inl, inr, dite}
use native.Mathlib.Decide.{dec_lt}
use native.Mathlib.Omega.{arith}
use Prim.Native.String.{String, [], ◌∷◌}
use Prim.Native.String
use mathlib.Core.Bool.{Bool, true, false, ◌&&◌, ◌||◌}
use mathlib.Core.List.{List}
use mathlib.Core.Option.{Option, none, some}
use rond.Prelude.Tests.{if◌then◌else◌, eqb, leb, ltb, Bool-cases}

infixr 66 ◌⧺◌
abbrev pub ◌⧺◌ : String → String → String
s ⧺ t = String.◌++◌ s t

abbrev pub push : String → Char → String
push s c = s ⧺ (c ∷ [])

lt-compare : (n : ℕ) → n < 128 → compare n 55296 ≡ Ordering.lt
lt-compare n h = ground arith

pub IsScalar-below : (n : ℕ) → n < 128 → IsScalar n
IsScalar-below n h = rw (lt-compare n h) tt

-- The ASCII character of a code.
ascii : ℕ → Char
ascii n = dite (dec_lt n 128) (λ h. char n (IsScalar-below n h)) (λ _. nul)

abbrev pub is_lower : ℕ → Bool
is_lower n = leb 97 n && leb n 122

abbrev pub is_upper : ℕ → Bool
is_upper n = leb 65 n && leb n 90

unfoldable pub upper_char : Char → Char
unfolding ascii dec_lt
upper_char c = if is_lower (code c) then ascii (code c - 32) else c

unfoldable pub lower_char : Char → Char
unfolding ascii dec_lt
lower_char c = if is_upper (code c) then ascii (code c + 32) else c

code-ascii : (n : ℕ) → n < 128 → code (ascii n) ≡ n
unfolding ascii
code-ascii n h = ground arith

pub code-upper_char :
    (c : Char) → code (upper_char c) ≡ (if is_lower (code c) then code c - 32 else code c)
code-upper_char c = elim (Bool-cases (is_lower (code c))) [
  | inl e ↦ unfold upper_char in rw e (code-ascii _ (ground arith))
  | inr e ↦ unfold upper_char in rw e
]

pub code-lower_char :
    (c : Char) → code (lower_char c) ≡ (if is_upper (code c) then code c + 32 else code c)
code-lower_char c = elim (Bool-cases (is_upper (code c))) [
  | inl e ↦ unfold lower_char in rw e (code-ascii _ (ground arith))
  | inr e ↦ unfold lower_char in rw e
]

-- strings.ToUpper
unfoldable pub to_upper : String → String
unfolding upper_char
to_upper [] = []
to_upper (c ∷ s) = upper_char c ∷ to_upper s

-- strings.ToLower
unfoldable pub to_lower : String → String
unfolding lower_char
to_lower [] = []
to_lower (c ∷ s) = lower_char c ∷ to_lower s

-- strings.Split at one character: always at least one part.
split_from : ℕ → String → String → List String
split_from sep cur [] = List.◌∷◌ cur List.[]
split_from sep cur (c ∷ s) =
    let closed = List.◌∷◌ cur (split_from sep "" s) in
    let longer = split_from sep (push cur c) s in if eqb (code c) sep then closed else longer

unfoldable pub split : ℕ → String → List String
unfolding split_from
split sep s = split_from sep "" s

-- strings.Join
unfoldable pub join : String → List String → String
join sep List.[] = ""
join sep (List.◌∷◌ s List.[]) = s
join sep (List.◌∷◌ s (List.◌∷◌ t ts)) = s ⧺ sep ⧺ join sep (List.◌∷◌ t ts)

-- strings.ReplaceAll(s, old, new), where `old` is one character
unfoldable pub replace_all : ℕ → String → String → String
replace_all old new [] = []
replace_all old new (c ∷ s) =
    if eqb (code c) old then new ⧺ replace_all old new s else c ∷ replace_all old new s

-- Whether the text holds the character.
unfoldable pub holds : ℕ → String → Bool
holds k [] = false
holds k (c ∷ s) = eqb (code c) k || holds k s

-- strings.HasPrefix(s, prefix)
unfoldable pub has_prefix : String → String → Bool
has_prefix s [] = true
has_prefix [] (c ∷ p) = false
has_prefix (d ∷ s) (c ∷ p) = eqb (code d) (code c) && has_prefix s p

-- strings.HasSuffix(s, "c"), for one character
unfoldable pub ends_with : String → ℕ → Bool
ends_with [] k = false
ends_with (c ∷ []) k = eqb (code c) k
ends_with (c ∷ (d ∷ s)) k = ends_with (d ∷ s) k

-- strconv.Itoa, of a number that is not negative: a number has at most as many digits as its
-- value plus one, which is the fuel.
digits_from : ℕ → ℕ → String → String
digits_from zero n later = later
digits_from (suc fuel) n later =
    let shown = ascii (48 + n % 10) ∷ later in
    let more = digits_from fuel (n / 10) shown in if ltb n 10 then shown else more

unfoldable pub itoa : ℕ → String
unfolding digits_from ascii dec_lt
itoa n = digits_from (suc n) n ""

abbrev pub format_bool : Bool → String
format_bool true = "true"
format_bool false = "false"

-- strings.TrimSuffix(s, "c"), for one character
unfoldable pub trim_suffix : String → ℕ → String
trim_suffix [] k = []
trim_suffix (c ∷ []) k = if eqb (code c) k then [] else c ∷ []
trim_suffix (c ∷ (d ∷ s)) k = c ∷ trim_suffix (d ∷ s) k

-- `len` of a text: its bytes in UTF-8.
abbrev pub width : ℕ → ℕ
width n = if ltb n 128 then 1 else if ltb n 2048 then 2 else if ltb n 65536 then 3 else 4

unfoldable pub byte_length : String → ℕ
byte_length [] = 0
byte_length (c ∷ s) = width (code c) + byte_length s

-- The rest behind a text that starts another one.
unfoldable pub rest_behind : String → String → Option String
rest_behind [] s = some s
rest_behind (c ∷ p) [] = none
rest_behind (c ∷ p) (d ∷ s) =
    let rest = rest_behind p s in if eqb (code c) (code d) then rest else none

-- strings.Replace(s, old, new, 1)
unfoldable pub replace_first : String → String → String → String
replace_first old new [] = elim (rest_behind old []) [ some rest ↦ new ⧺ rest | none ↦ [] ]
replace_first old new (c ∷ s) =
    let later = replace_first old new s in
    elim (rest_behind old (c ∷ s)) [ some rest ↦ new ⧺ rest | none ↦ c ∷ later ]
