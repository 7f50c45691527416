-- ===== src/Types.antt =====
-- types/rbactypes.go: bindings, roles and users. A nil slice and an empty one are one list, but for
-- the permissions of a role, which are encoded as null where they are nil.
pub mod Encoded
use rond.Prelude.{String, List, [], Option, none, some, ℕ}

pub record Resource : Type 0 where
  pub resource_type : String
  pub resource_id : String

pub record Binding : Type 0 where
  pub resource : Option Resource
  pub binding_id : String
  pub crud_document_state : String
  pub groups : List String
  pub subjects : List String
  pub permissions : List String
  pub roles : List String

pub record Role : Type 0 where
  pub role_id : String
  pub crud_document_state : String
  pub permissions : Option (List String)

-- What a range over a slice that may be nil goes through.
abbrev pub elements : Option (List String) → List String
elements none = []
elements (some values) = values

pub record User : Type 0 where
  pub user_id : String
  pub user_groups : List String
  pub user_roles : List Role
  pub user_bindings : List Binding

pub record BindingFilter : Type 0 where
  pub binding_id : String

pub record BindingUpdate : Type 0 where
  pub groups : List String
  pub subjects : List String

pub record BindingCreateResponse : Type 0 where
  pub object_id : String

pub record RequestError : Type 0 where
  pub error : String
  pub message : String
  pub status_code : ℕ
