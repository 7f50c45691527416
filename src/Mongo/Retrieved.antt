-- ===== src/Mongo/Retrieved.antt =====
-- What `RetrieveUserBindingsAndRoles` finds in a database.
use mathlib.Core.Bool.{and-eq-true_iff}
use rond.Prelude.{
  String, Bool, true, false, ◌&&◌, ◌||◌, List, [], ◌∷◌, ok, ◌≡◌, ◌↔◌, ◌⊎◌, inl, inr, refl, ◌==◌,
  arith, eq_iff, Memᴰ, elem, elem_iff, keep, Memᴰ-keep, meet, meet_iff,
}
use rond.Prelude.Text.{split}
use rond.Prelude.Json.{Json, str, single, array, strings}
use rond.Http.Header.{get}
use rond.Http.Request.{Request}
use rond.Types.{Binding, Role, User}
use rond.Utils.{Lo}
use rond.Config.{EnvironmentVariables}
use rond.Mongo.{
  MongoClient, mongo_client, state_key, user_bindings_filter, retrieve_user_bindings, roles_filter,
  retrieve_user_roles_by_roles_id, retrieve_from, retrieve_user_bindings_and_roles,
  get_mongo_client, roles_ids_from_bindings, user_of_headers,
}
use rond.Mongo.RolesIds.{Names, roles_ids_from_bindings_lem}

-- What MongoDB documents of the filters used: a client finds what matches in its collections, in
-- their order, and `$elemMatch` and `$in` look for an element.
pub record Database (client : MongoClient) : Type 0 where
  pub bindings : List Binding
  pub roles : List Role
  pub matches : Json → Binding → Bool
  pub role_matches : Json → Role → Bool
  pub find_lem : (f : Json) → client.find_bindings f ≡ ok (keep (matches f) bindings)
  pub find_roles_lem : (f : Json) → client.find_roles f ≡ ok (keep (role_matches f) roles)
  pub and_lem :
      (f g : Json) (b : Binding)
      → matches (single "$and" (array (f ∷ g ∷ []))) b ≡ (matches f b && matches g b)
  pub or_lem :
      (f g : Json) (b : Binding)
      → matches (single "$or" (array (f ∷ g ∷ []))) b ≡ (matches f b || matches g b)
  pub state_lem :
      (s : String) (b : Binding)
      → matches (single state_key (str s)) b ≡ (b.crud_document_state == s)
  pub subjects_lem :
      (s : String) (b : Binding)
      → matches (single "subjects" (single "$elemMatch" (single "$eq" (str s)))) b
        ≡ elem s b.subjects
  pub groups_lem :
      (gs : List String) (b : Binding)
      → matches (single "groups" (single "$elemMatch" (single "$in" (strings gs)))) b
        ≡ meet gs b.groups
  pub role_and_lem :
      (f g : Json) (r : Role)
      → role_matches (single "$and" (array (f ∷ g ∷ []))) r ≡ (role_matches f r && role_matches g r)
  pub role_state_lem :
      (s : String) (r : Role)
      → role_matches (single state_key (str s)) r ≡ (r.crud_document_state == s)
  pub role_id_lem :
      (ids : List String) (r : Role)
      → role_matches (single "roleId" (single "$in" (strings ids))) r ≡ elem r.role_id ids

-- The binding names the user, or one of the user's groups.
abbrev pub IsFor : User → Binding → Type 0
IsFor user b =
    Memᴰ user.user_id b.subjects ⊎ ((g : String) × Memᴰ g user.user_groups × Memᴰ g b.groups)

module _ (client : MongoClient) (db : Database client) where
  -- A user has the public bindings of the database that are for them, and the public roles that
  -- these bindings name.
  abbrev pub IsRetrieved : User → Type 0
  IsRetrieved user =
      ((b : Binding)
        → Memᴰ b user.user_bindings
          ↔ (Memᴰ b db.bindings × (b.crud_document_state ≡ "PUBLIC") × IsFor user b))
      × ((r : Role)
          → Memᴰ r user.user_roles ↔ (
              Memᴰ r db.roles
              × (r.crud_document_state ≡ "PUBLIC")
              × Names user.user_bindings r.role_id))

  binding-filter_iff :
      (user : User) (b : Binding)
      → (db.matches (user_bindings_filter user) b ≡ true)
        ↔ ((b.crud_document_state ≡ "PUBLIC") × IsFor user b)
  unfolding user_bindings_filter
  binding-filter_iff user b =
      rw (db.and_lem, db.or_lem, db.subjects_lem, db.groups_lem, db.state_lem)
        (
          (λ h.
              let (named, state) = (and-eq-true_iff _ _).0 h in
              (
                (eq_iff _ _).0 state,
                elim (split_or named) [
                  | inl s ↦ inl ((elem_iff _ _).0 s)
                  | inr g ↦ inr ((meet_iff _ _).0 g)
                ],
              )),
          (λ (state, named). (and-eq-true_iff _ _).1 (
            elim named [
              | inl s ↦ rw ((elem_iff _ _).1 s) refl
              | inr g ↦ ground (arith, (meet_iff user.user_groups b.groups).1 g)
            ],
            (eq_iff _ _).1 state,
          )),
        )
    where
      split_or : {a b : Bool} → (a || b) ≡ true → (a ≡ true) ⊎ (b ≡ true)
      split_or {a = true} h = inl refl
      split_or {a = false} h = inr h

  role-filter_iff :
      (ids : List String) (r : Role)
      → (db.role_matches (roles_filter ids) r ≡ true)
        ↔ ((r.crud_document_state ≡ "PUBLIC") × Memᴰ r.role_id ids)
  unfolding roles_filter
  role-filter_iff ids r =
      rw (db.role_and_lem, db.role_id_lem, db.role_state_lem)
        (
          (λ h.
              let (named, state) = (and-eq-true_iff _ _).0 h in
              ((eq_iff _ _).0 state, (elem_iff _ _).0 named)),
          (λ (state, named).
              (and-eq-true_iff _ _).1 ((elem_iff _ _).1 named, (eq_iff _ _).1 state)),
        )

-- For a request with a user's id, and a client of a database, RetrieveUserBindingsAndRoles gives
-- the user of the headers with exactly the public bindings of the database that name the user or
-- one of the user's groups, and exactly the public roles that these bindings name.
pub retrieve_user_bindings_and_roles-IsRetrieved :
    (lo : Lo) (client : MongoClient) (db : Database client) (req : Request)
    (env : EnvironmentVariables)
    → (get req.header env.user_id_header == "") ≡ false
    → (user : User) × (retrieve_user_bindings_and_roles lo (mongo_client client) req env ≡ ok user)
      × (user.user_id ≡ get req.header env.user_id_header)
      × (user.user_groups ≡ split b',' (get req.header env.user_groups_header))
      × IsRetrieved client db user
unfolding retrieve_user_bindings_and_roles get_mongo_client retrieve_from retrieve_user_bindings
    retrieve_user_roles_by_roles_id
retrieve_user_bindings_and_roles-IsRetrieved lo client db req env named = (
  record named_user { user_bindings = bindings; user_roles = roles },
  rw (named, db.find_lem (user_bindings_filter named_user), db.find_roles_lem (roles_filter ids))
      refl,
  refl,
  refl,
  (
    (λ b. (
      (λ m.
          let (k, t) = (Memᴰ-keep _ b db.bindings).0 m in
          let (state, n) = (binding-filter_iff client db named_user b).0 t in (k, state, n)),
      (λ (k, state, n).
          (Memᴰ-keep _ b db.bindings).1
            (k, (binding-filter_iff client db named_user b).1 (state, n))),
    )),
    (λ r. (
      (λ m.
          let (k, t) = (Memᴰ-keep _ r db.roles).0 m in
          let (state, n) = (role-filter_iff client db ids r).0 t in
          (k, state, ((roles_ids_from_bindings_lem lo bindings).0 r.role_id).0 n)),
      (λ (k, state, n). (Memᴰ-keep _ r db.roles).1 (
        k,
        (role-filter_iff client db ids r).1
            (state, ((roles_ids_from_bindings_lem lo bindings).0 r.role_id).1 n),
      )),
    )),
  ),
)
  where
    named_user : User
    named_user = user_of_headers req env

    bindings : List Binding
    bindings = keep (db.matches (user_bindings_filter named_user)) db.bindings

    ids : List String
    ids = roles_ids_from_bindings lo bindings

    roles : List Role
    roles = keep (db.role_matches (roles_filter ids)) db.roles
