-- ===== src/Tests/Fixtures.antt =====
-- Concrete data for the tests, with what the program takes from other packages.
use rond.Prelude.{
  ok, some, map, String, true, false, not, ◌&&◌, List, [], ◌∷◌, ◌++◌, Option, none, ◌==◌, ◌≡◌, refl,
  ap, sym, ◌∙◌, Bool-cases, elem, elem-cons, elem-append, if◌then◌else◌, arith, eq_iff, Memᴰ, inl,
  inr,
}
use rond.Types.{Resource, Binding, Role, User}
use rond.Utils.{Lo}
use rond.Config.{EnvironmentVariables}
use rond.Openapi.{VerbConfig, RondConfig}
use rond.Openapi.Routes.{Registration}
use rond.Openapi.FindPermission.{Bunrouter, Answer, handled, answered}

-- The elements of the first list that the second lacks.
unfoldable pub without : List String → List String → List String
unfolding elem
without [] ys = []
without (x ∷ xs) ys = let rest = without xs ys in if elem x ys then rest else x ∷ rest

pub without_lem :
    (xs ys : List String) (x : String) → elem x (without xs ys) ≡ (elem x xs && not (elem x ys))
unfolding without
without_lem [] ys x = refl
without_lem (z ∷ xs) ys x =
    ground (arith, without_lem xs ys x, eq_iff z x, elem-cons x z (without xs ys), elem-cons x z xs)

abbrev pub simple_lo : Lo
simple_lo = record {
  contains = λ xs x. elem x xs;
  difference = λ xs ys. (without xs ys, without ys xs);
  union = λ xs ys. xs ++ ys;
  map_text = λ f xs. map f xs;
  contains_lem = λ xs x. refl;
  difference_lem = without_lem;
  map_text_lem = λ f xs. refl;
  union_lem = λ xs ys x. elem-append x xs ys;
}

abbrev pub desk : Resource
desk = record { resource_type = "desk"; resource_id = "d1" }

abbrev pub binding : Option Resource → List String → List String → Binding
binding r permissions roles = record {
  resource = r;
  binding_id = "b1";
  crud_document_state = "PUBLIC";
  groups = "g1" ∷ [];
  subjects = "u1" ∷ "u2" ∷ [];
  permissions = permissions;
  roles = roles;
}

abbrev pub editor : Role
editor = record {
  role_id = "editor";
  crud_document_state = "PUBLIC";
  permissions = some ("write" ∷ []);
}

abbrev pub user : List Binding → User
user bindings = record {
  user_id = "u1";
  user_groups = "g1" ∷ [];
  user_roles = editor ∷ [];
  user_bindings = bindings;
}

abbrev pub env : EnvironmentVariables
env = record {
  log_level = "info";
  http_port = "8080";
  service_version = "latest";
  target_service_host = "localhost:3000";
  target_service_oas_path = "/documentation/json";
  opa_modules_directory = "/modules";
  api_permissions_file_path = "";
  user_properties_header = "miauserproperties";
  user_groups_header = "miausergroups";
  user_id_header = "miauserid";
  client_type_header = "Client-Type";
  bindings_crud_service_url = "";
  mongo_db_url = "";
  roles_collection_name = "";
  bindings_collection_name = "";
  path_prefix_standalone = "/eval";
  delay_shutdown_seconds = 10;
  standalone = false;
  additional_headers_to_proxy = "miauserid";
  expose_metrics = true;
}

abbrev pub rond_config : String → RondConfig
rond_config policy = record {
  request_flow = record {
    policy_name = policy;
    generate_query = true;
    query_options = record { header_name = "acl" };
  };
  response_flow = record { policy_name = "" };
  options = record { enable_resource_permissions_map_optimization = true };
}

abbrev pub verb_config_of : Option RondConfig → VerbConfig
verb_config_of v2 = record { permission_v1 = none; permission_v2 = v2 }

-- A router that knows plain paths alone, and calls the first handler that fits.
unfoldable pub serve_first : List Registration → String → String → Answer
serve_first [] method path = answered 404
serve_first (r ∷ rs) method path =
    if r.method == method && r.path == path then handled r else serve_first rs method path

pub serve_first-registered :
    (rs : List Registration) (method path : String) (r : Registration)
    → serve_first rs method path ≡ handled r
    → Memᴰ r rs × (r.method ≡ method)
unfolding serve_first
serve_first-registered [] method path r h = cc
serve_first-registered (q ∷ rs) method path r h =
    elim (Bool-cases (q.method == method && q.path == path)) [
      | inl e ↦
          let same : q ≡ r = ap (registration_or q) (rw e at h) in
          (Memᴰ.head (sym same), ap (λ t. t.method) (sym same) ∙ (eq_iff _ _).0 (ground arith))
      | inr e ↦ let (m, p) = serve_first-registered rs method path r (rw e at h) in (Memᴰ.tail m, p)
    ]
  where
    registration_or : Registration → Answer → Registration
    registration_or d (handled r) = r
    registration_or d (answered c) = d

abbrev pub plain_router : Bunrouter
plain_router = record {
  handle_all = λ registrations. ok tt;
  serve = serve_first;
  parses = λ method path. true;
  serve-registered = serve_first-registered;
}
