-- ===== src/Openapi/PathVariables.antt =====
-- `ConvertPathVariablesToBrackets`, `ConvertPathVariablesToColons` and `cleanWildcard` of
-- openapi/openapi_utils.go. The regular expressions are run as machines: a variable is only
-- looked for behind a slash, and what turns out not to be one is written back.
pub mod Segments
pub mod Colons
pub mod Brackets
use Prim.Native.Char.{Char, code}
use rond.Prelude.{ℕ, String, Bool, true, not, ◌&&◌, ◌||◌, if◌then◌else◌, eqb, leb, ◌==◌, ◌≡◌, refl}
use rond.Prelude.Text.{◌⧺◌, push, replace_all, ends_with}

-- \w
abbrev pub is_word : ℕ → Bool
is_word n =
    leb b'0' n && leb n b'9' || leb b'A' n && leb n b'Z' || eqb n b'_' || leb b'a' n && leb n b'z'

-- Nothing read of a match; its slash; or its opening and the word so far.
pub data Mode : Type 0 where
  plain slash : Mode
  word : String → Mode

abbrev pub one : Char → String
one c = String.◌∷◌ c String.[]

abbrev pub restart : Char → Mode
restart c = if eqb (code c) b'/' then slash else plain

-- What is written for a character that does not go on with a match.
abbrev pub restart_text : Char → String
restart_text c = if eqb (code c) b'/' then "" else one c

-- `\/{(\w+)}` becomes `/:$1`.
unfoldable pub colons_next : Mode → Char → Mode
colons_next plain c = restart c
colons_next slash c = if eqb (code c) b'{' then word "" else restart c
colons_next (word w) c =
    if is_word (code c)
    then word (push w c)
    else if eqb (code c) b'}' && not (w == "")
    then plain
    else restart c

unfoldable pub colons_text : Mode → Char → String
colons_text plain c = restart_text c
colons_text slash c = if eqb (code c) b'{' then "" else "/" ⧺ restart_text c
colons_text (word w) c =
    if is_word (code c)
    then ""
    else if eqb (code c) b'}' && not (w == "")
    then "/:" ⧺ w
    else "/{" ⧺ w ⧺ restart_text c

unfoldable pub colons_end : Mode → String
colons_end plain = ""
colons_end slash = "/"
colons_end (word w) = "/{" ⧺ w

unfoldable pub colons_from : Mode → String → String
unfolding colons_next colons_text colons_end
colons_from mode String.[] = colons_end mode
colons_from mode (String.◌∷◌ c s) = colons_text mode c ⧺ colons_from (colons_next mode c) s

unfoldable pub convert_path_variables_to_colons : String → String
unfolding colons_from
convert_path_variables_to_colons path = colons_from plain path

-- `\/:(\w+)` becomes `/{$1}`.
unfoldable pub brackets_next : Mode → Char → Mode
brackets_next plain c = restart c
brackets_next slash c = if eqb (code c) b':' then word "" else restart c
brackets_next (word w) c = if is_word (code c) then word (push w c) else restart c

abbrev pub bracketed : String → String
bracketed w = if w == "" then "/:" else "/{" ⧺ w ⧺ "}"

unfoldable pub brackets_text : Mode → Char → String
brackets_text plain c = restart_text c
brackets_text slash c = if eqb (code c) b':' then "" else "/" ⧺ restart_text c
brackets_text (word w) c = if is_word (code c) then "" else bracketed w ⧺ restart_text c

unfoldable pub brackets_end : Mode → String
brackets_end plain = ""
brackets_end slash = "/"
brackets_end (word w) = bracketed w

unfoldable pub brackets_from : Mode → String → String
unfolding brackets_next brackets_text brackets_end
brackets_from mode String.[] = brackets_end mode
brackets_from mode (String.◌∷◌ c s) = brackets_text mode c ⧺ brackets_from (brackets_next mode c) s

unfoldable pub convert_path_variables_to_brackets : String → String
unfolding brackets_from
convert_path_variables_to_brackets path = brackets_from plain path

-- A path that ends in a star has each star named.
unfoldable pub clean_wildcard : String → String
clean_wildcard path = if ends_with path b'*' then replace_all b'*' "*param" path else path

conversions :
    (convert_path_variables_to_colons "/a/{b}/{c}d/x{y}/{}/{e" ≡ "/a/:b/:cd/x{y}/{}/{e")
    × (convert_path_variables_to_brackets "/a/:b/:c-d/x:y//:" ≡ "/a/{b}/{c}-d/x:y//:")
    × (clean_wildcard "/a/*" ≡ "/a/*param")
unfolding convert_path_variables_to_colons convert_path_variables_to_brackets clean_wildcard
    replace_all ends_with
conversions = (refl, refl, refl)
