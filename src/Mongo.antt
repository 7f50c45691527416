-- ===== src/Mongo.antt =====
-- internal/mongoclient/mongoclient.go, with `IMongoClient` of types/rbactypes.go. The driver of
-- MongoDB is a parameter: what finding documents gives in the state of the database.
pub mod RolesIds
pub mod Retrieved
pub mod Setup
use rond.Prelude.{
  String, not, ◌&&◌, List, [], ◌∷◌, ◌++◌, Option, none, some, Result, ok, err, panic, GoError,
  error_text, ◌==◌, if◌then◌else◌, ◌>>=◌, ◌≡◌,
}
use rond.Prelude.Text.{◌⧺◌, split}
use rond.Prelude.Json.{Json, str, object, single, array, strings}
use rond.Http.Header.{get}
use rond.Http.Request.{Request}
use rond.Types.{Binding, Role, User}
use rond.Utils.{Lo}
use rond.Config.{EnvironmentVariables}

abbrev pub state_key : String
state_key = "__STATE__"

abbrev pub public_state : String
public_state = "PUBLIC"

-- What `collection.FindOne` and decoding give: a document of the driver, converted to JSON by
-- `bson.MarshalExtJSON` and `json.Unmarshal`, or no document at all.
pub data Document : Type 0 where
  no_documents : GoError → Document
  undecoded : GoError → Document
  document : Result String → Document

-- The driver: `Find` and `All` on the two collections, and on any collection for the builtins.
pub record MongoClient : Type 0 where
  pub find_bindings : Json → Result (List Binding)
  pub find_roles : Json → Result (List Role)
  pub find_first : String → Json → Document
  pub find_all : String → Json → Result (List (Result String))

-- The value of the request's context under `MongoClientContextKey`.
pub data MongoValue : Type 0 where
  no_value : MongoValue
  mongo_client : MongoClient → MongoValue
  other_value : MongoValue

-- `GetMongoClientFromContext`: no value is a nil client without an error.
unfoldable pub get_mongo_client : MongoValue → Result (Option MongoClient)
get_mongo_client no_value = ok none
get_mongo_client (mongo_client client) = ok (some client)
get_mongo_client other_value = err (error_text "no MongoDB collection found in context")

abbrev pub and_public : Json → Json
and_public condition = single "$and" (array (condition ∷ single state_key (str public_state) ∷ []))

unfoldable pub user_bindings_filter : User → Json
user_bindings_filter user = and_public (
    single "$or" (
      array (
        single "subjects" (single "$elemMatch" (single "$eq" (str user.user_id)))
        ∷ single "groups" (single "$elemMatch" (single "$in" (strings user.user_groups)))
        ∷ [])))

unfoldable pub retrieve_user_bindings : MongoClient → User → Result (List Binding)
retrieve_user_bindings client user = client.find_bindings (user_bindings_filter user)

unfoldable pub retrieve_roles : MongoClient → Result (List Role)
retrieve_roles client = client.find_roles (single state_key (str public_state))

unfoldable pub roles_filter : List String → Json
roles_filter user_roles_id = and_public (single "roleId" (single "$in" (strings user_roles_id)))

unfoldable pub retrieve_user_roles_by_roles_id : MongoClient → List String → Result (List Role)
retrieve_user_roles_by_roles_id client user_roles_id =
    client.find_roles (roles_filter user_roles_id)

-- The loops of `RolesIDsFromBindings`, with the ids found so far.
unfoldable pub add_roles_ids : Lo → List String → List String → List String
add_roles_ids lo roles_ids [] = roles_ids
add_roles_ids lo roles_ids (role ∷ roles) =
    add_roles_ids lo (if lo.contains roles_ids role then roles_ids else roles_ids ++ role ∷ [])
      roles

unfoldable pub roles_ids_from : Lo → List String → List Binding → List String
roles_ids_from lo roles_ids [] = roles_ids
roles_ids_from lo roles_ids (binding ∷ bindings) =
    roles_ids_from lo (add_roles_ids lo roles_ids binding.roles) bindings

unfoldable pub roles_ids_from_bindings : Lo → List Binding → List String
roles_ids_from_bindings lo bindings = roles_ids_from lo [] bindings

-- The user that the request's headers name, without bindings and roles.
abbrev pub user_of_headers : Request → EnvironmentVariables → User
user_of_headers req env = record {
  user_id = get req.header env.user_id_header;
  user_groups = split b',' (get req.header env.user_groups_header);
  user_roles = [];
  user_bindings = [];
}

abbrev pub explained {ℓ} : {A : Type ℓ} → String → Result A → Result A
explained text (ok a) = ok a
explained text (err e) = err (error_text (text ⧺ e.message))
explained text panic = panic

unfoldable pub retrieve_from : Lo → MongoClient → User → Result User
retrieve_from lo client user =
    explained "Error while retrieving user bindings: " (retrieve_user_bindings client user)
    >>= λ bindings.
        explained "Error while retrieving user Roles: "
          (retrieve_user_roles_by_roles_id client (roles_ids_from_bindings lo bindings))
        >>= λ roles. ok (record user { user_bindings = bindings; user_roles = roles })

abbrev pub retrieve_with : Lo → User → Option MongoClient → Result User
retrieve_with lo user none = ok user
retrieve_with lo user (some client) =
    if user.user_id == "" then ok user else retrieve_from lo client user

abbrev pub retrieve_by : Lo → User → Result (Option MongoClient) → Result User
retrieve_by lo user (ok client) = retrieve_with lo user client
retrieve_by lo user (err e) =
    err (error_text "Unexpected error retrieving MongoDB Client from request context")
retrieve_by lo user panic = panic

-- `RetrieveUserBindingsAndRoles`
unfoldable pub retrieve_user_bindings_and_roles :
    Lo → MongoValue → Request → EnvironmentVariables → Result User
retrieve_user_bindings_and_roles lo value req env =
    retrieve_by lo (user_of_headers req env) (get_mongo_client value)

-- `FindOne`: without a document, nil and no error. The parser of JSON is a parameter.
unfoldable pub find_one :
    (String → Result Json) → MongoClient → String → Json → Result (Option Json)
find_one unmarshal client collection_name query = elim (client.find_first collection_name query) [
  | no_documents e ↦ ok none
  | undecoded e ↦ err e
  | document bytes ↦ bytes >>= unmarshal >>= λ res. ok (some res)
]

-- The loop of `FindMany`, which stops at the first document that cannot be converted.
unfoldable pub convert_all : (String → Result Json) → List (Result String) → Result (List Json)
convert_all unmarshal [] = ok []
convert_all unmarshal (bytes ∷ rest) = bytes >>= unmarshal >>= λ result.
    convert_all unmarshal rest >>= λ results. ok (result ∷ results)

unfoldable pub find_many : (String → Result Json) → MongoClient → String → Json → Result (List Json)
find_many unmarshal client collection_name query =
    client.find_all collection_name query >>= convert_all unmarshal

pub explained-ok {ℓ} :
    {A : Type ℓ} (text : String) (m : Result A) (a : A) → explained text m ≡ ok a → m ≡ ok a
explained-ok text (ok b) a h = h
explained-ok text (err e) a h = cc
explained-ok text panic a h = cc
