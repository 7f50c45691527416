-- ===== src/Prelude/Json.antt =====
-- Values of `encoding/json` and of the bson documents that the program builds. A document is the
-- list of its fields. Other numbers than the naturals are kept by their text.
use Prim.Native.Nat.{ℕ}
use Prim.Native.String.{String}
use mathlib.Core.Bool.{Bool}
use mathlib.Core.List.{List, [], ◌∷◌, map}
use rond.Prelude.Errors.{Result}

mutual
  pub data Json : Type 0 where
    null : Json
    bool : Bool → Json
    int : ℕ → Json
    number : String → Json
    str : String → Json
    arr : Items → Json
    obj : Fields → Json

  pub data Items : Type 0 where
    no_items : Items
    item : Json → Items → Items

  pub data Fields : Type 0 where
    no_fields : Fields
    field : String → Json → Fields → Fields

abbrev pub items : List Json → Items
items [] = no_items
items (j ∷ js) = item j (items js)

abbrev pub fields : List (String × Json) → Fields
fields [] = no_fields
fields ((k, v) ∷ kvs) = field k v (fields kvs)

abbrev pub array : List Json → Json
array js = arr (items js)

-- map[string]interface{}{...}
abbrev pub object : List (String × Json) → Json
object kvs = obj (fields kvs)

-- map[string]interface{}{key: value}
abbrev pub single : String → Json → Json
single key value = object ((key, value) ∷ [])

abbrev pub strings : List String → Json
strings ss = array (map str ss)

-- json.Marshal, whose text is not modelled: a parameter.
abbrev pub Marshal : Type 0
Marshal = Json → Result String
