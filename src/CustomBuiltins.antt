-- ===== src/CustomBuiltins.antt =====
-- custom_builtins/get_header.go and custom_builtins/mongo.go: the functions that policies can call.
-- Reading the terms of the engine, and making them, is a parameter.
use rond.Prelude.{String, List, [], ◌∷◌, Option, none, some, Result, ok, panic, ◌>>=◌}
use rond.Prelude.Json.{Json, null, array}
use rond.Http.Header.{Header, get}
use rond.Mongo.{MongoClient, MongoValue, get_mongo_client, find_one, find_many}

-- The types of the engine that the declarations name, `types.S` and `types.A`.
pub data Kind : Type 0 where
  text any : Kind

pub record Declaration : Type 0 where
  pub name : String
  pub args : List Kind
  pub result : Kind

abbrev pub get_header_decl : Declaration
get_header_decl = record { name = "get_header"; args = text ∷ any ∷ []; result = text }

abbrev pub mongo_find_one_decl : Declaration
mongo_find_one_decl = record { name = "find_one"; args = text ∷ any ∷ []; result = any }

abbrev pub mongo_find_many_decl : Declaration
mongo_find_many_decl = record { name = "find_many"; args = text ∷ any ∷ []; result = any }

-- `ast.As` at the types used, `ast.StringTerm` and `ast.InterfaceToValue`.
pub record Terms (T : Type 0) : Type 0 where
  pub as_string : T → Result String
  pub as_header : T → Result Header
  pub as_object : T → Result Json
  pub string_term : String → T
  pub interface_to_value : Json → Result T

-- A nil result is null for the engine.
abbrev pub or_null : Option Json → Json
or_null none = null
or_null (some j) = j

module _ {T : Type 0} (terms : Terms T) where
  unfoldable pub get_header_function : T → T → Result T
  get_header_function a b = terms.as_string a >>= λ header_key.
      terms.as_header b >>= λ headers. ok (terms.string_term (get headers header_key))

  -- A method call on a nil client panics.
  abbrev pub called : (MongoClient → Result Json) → Option MongoClient → Result Json
  called method none = panic
  called method (some client) = method client

  unfoldable pub mongo_find_one : (String → Result Json) → MongoValue → T → T → Result T
  mongo_find_one unmarshal value collection_name_term query_term =
      get_mongo_client value >>= λ client. terms.as_string collection_name_term >>= λ name.
      terms.as_object query_term >>= λ query.
      called (λ c. find_one unmarshal c name query >>= λ found. ok (or_null found)) client
      >>= terms.interface_to_value

  unfoldable pub mongo_find_many : (String → Result Json) → MongoValue → T → T → Result T
  mongo_find_many unmarshal value collection_name_term query_term =
      get_mongo_client value >>= λ client. terms.as_string collection_name_term >>= λ name.
      terms.as_object query_term >>= λ query.
      called (λ c. find_many unmarshal c name query >>= λ found. ok (array found)) client
      >>= terms.interface_to_value
