-- ===== src/Tests/Bindings.antt =====
-- A database of bindings and roles, with MongoDB's reading of the filters that are used.
use rond.Prelude.{
  String, Bool, true, false, ◌&&◌, ◌||◌, List, [], ◌∷◌, map, some, ok, error_text, ◌≡◌, refl, ap,
  ◌==◌, elem, keep, meet, if◌then◌else◌,
}
use rond.Prelude.Text.{split}
use rond.Prelude.Json.{
  Json, str, arr, obj, Items, no_items, item, field, items, single, array, strings,
}
use rond.Prelude.Map.{lookup}
use rond.Http.Header.{get, canonical, canonical_from, canonical_char, all_tokens}
use rond.Http.Request.{Request}
use rond.Prelude.Text.{upper_char, lower_char}
use rond.Types.{Binding, Role, User}
use rond.Mongo.{MongoClient, no_documents, mongo_client, retrieve_user_bindings_and_roles}
use rond.Mongo.Retrieved.{Database, IsRetrieved, retrieve_user_bindings_and_roles-IsRetrieved}
use rond.Tests.Fixtures.{simple_lo, env, binding, editor, desk}
use rond.Tests.Engine.{request}

abbrev pub texts : Items → List String
texts no_items = []
texts (item (str s) js) = s ∷ texts js
texts (item j js) = texts js

pub texts-strings : (ss : List String) → texts (items (map str ss)) ≡ ss
texts-strings [] = refl
texts-strings (s ∷ ss) = ap (λ r. s ∷ r) (texts-strings ss)

unfoldable mutual
  pub test : Json → Binding → Bool
  test (obj (field k (arr xs) fs)) b = if k == "$and" then test_all xs b else test_any xs b
  test (obj (field k (str s) fs)) b = b.crud_document_state == s
  test (obj (field k (obj (field m (obj (field o (str s) hs)) gs)) fs)) b = elem s b.subjects
  test (obj (field k (obj (field m (obj (field o (arr xs) hs)) gs)) fs)) b =
      meet (texts xs) b.groups
  test j b = false

  pub test_all : Items → Binding → Bool
  test_all no_items b = true
  test_all (item j no_items) b = test j b
  test_all (item j js) b = test j b && test_all js b

  pub test_any : Items → Binding → Bool
  test_any no_items b = false
  test_any (item j no_items) b = test j b
  test_any (item j js) b = test j b || test_any js b

unfoldable mutual
  pub test_role : Json → Role → Bool
  test_role (obj (field k (arr xs) fs)) r = test_roles xs r
  test_role (obj (field k (str s) fs)) r = r.crud_document_state == s
  test_role (obj (field k (obj (field o (arr xs) gs)) fs)) r = elem r.role_id (texts xs)
  test_role j r = false

  pub test_roles : Items → Role → Bool
  test_roles no_items r = true
  test_roles (item j no_items) r = test_role j r
  test_roles (item j js) r = test_role j r && test_roles js r

abbrev stored : List Binding
stored = binding (some desk) [] ("editor" ∷ []) ∷ []

abbrev client : MongoClient
client = record {
  find_bindings = λ f. ok (keep (test f) stored);
  find_roles = λ f. ok (keep (test_role f) (editor ∷ []));
  find_first = λ c q. no_documents (error_text "no documents");
  find_all = λ c q. ok [];
}

pub test-and :
    (f g : Json) (b : Binding)
    → test (single "$and" (array (f ∷ g ∷ []))) b ≡ (test f b && test g b)
unfolding test
test-and f g b = refl

pub test-or :
    (f g : Json) (b : Binding) → test (single "$or" (array (f ∷ g ∷ []))) b ≡ (test f b || test g b)
unfolding test
test-or f g b = refl

pub test-groups :
    (gs : List String) (b : Binding)
    → test (single "groups" (single "$elemMatch" (single "$in" (strings gs)))) b ≡ meet gs b.groups
unfolding test
test-groups gs b = ap (λ ss. meet ss b.groups) (texts-strings gs)

pub test_role-ids :
    (ids : List String) (r : Role)
    → test_role (single "roleId" (single "$in" (strings ids))) r ≡ elem r.role_id ids
unfolding test_role
test_role-ids ids r = ap (elem r.role_id) (texts-strings ids)

database : Database client
unfolding test test_role
database = record {
  bindings = stored;
  roles = editor ∷ [];
  matches = test;
  role_matches = test_role;
  find_lem = λ f. refl;
  find_roles_lem = λ f. refl;
  and_lem = test-and;
  or_lem = test-or;
  state_lem = λ s b. refl;
  subjects_lem = λ s b. refl;
  groups_lem = test-groups;
  role_and_lem = λ f g r. refl;
  role_state_lem = λ s r. refl;
  role_id_lem = test_role-ids;
}

abbrev of_user : Request
of_user = record request { header = ("Miauserid", "u1" ∷ []) ∷ [] }

has_user : (get of_user.header "miauserid" == "") ≡ false
unfolding get canonical canonical_from canonical_char all_tokens upper_char lower_char lookup
has_user = refl

retrieve_user_bindings_and_roles-IsRetrieved_example :
    (user : User) × (retrieve_user_bindings_and_roles simple_lo (mongo_client client) of_user env
      ≡ ok user)
    × (user.user_id ≡ get of_user.header "miauserid")
    × (user.user_groups ≡ split b',' (get of_user.header "miausergroups"))
    × IsRetrieved client database user
retrieve_user_bindings_and_roles-IsRetrieved_example =
    retrieve_user_bindings_and_roles-IsRetrieved simple_lo client database of_user env has_user
