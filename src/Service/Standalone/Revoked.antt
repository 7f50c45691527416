-- ===== src/Service/Standalone/Revoked.antt =====
-- What `revokeHandler` of service/standalone_apis.go has done when it answers 200.
use mathlib.Core.Path.{subst}
use rond.Prelude.{
  ℕ, String, false, not, ◌&&◌, List, [], ◌∷◌, map, is_empty, none, some, ok, ◌==◌, ◌≡◌, ◌⊎◌, inl,
  inr, refl, sym, ap, ◌∙◌, Bool-cases, arith,
}
use rond.Prelude.Text.{◌⧺◌, itoa}
use rond.Prelude.Json.{Json, int, object, array}
use rond.Http.Writer.{Writer, write}
use rond.Types.{Binding}
use rond.Utils.Failed.{Succeeds}
use rond.Config.{EnvironmentVariables, get_env, get_env-ok}
use rond.Crudclient.{Crud}
use rond.Crudclient
use rond.Service.Revoke.{
  RevokeRequestBody, prepare_bindings, build_query, build_query_for_bindings_to_delete,
  build_request_body_for_bindings_to_patch,
}
use rond.Service.Standalone.Called.{
  base_of, HasSent, new_lem, get-HasSent, delete-HasSent, patch_bulk-HasSent,
}
use rond.Service.Standalone.Patched.{patch_of, patch_items_json-lem}
use rond.Service.Standalone.Queried.{
  Queries, Finds, FindsIds, build_query-Finds, build_query_for_bindings_to_delete-FindsIds,
}
use rond.Service.Standalone.Succeeded.{
  failed-Succeeds, attempt-Succeeds, attempt-encoded, respond-Succeeds,
}
use rond.Service.Standalone.Requests.{Services, StandaloneRequest, decoded}
use rond.Service.Standalone.{
  bindings_max_page_size, patch_items_json, revoke_respond, revoke_patch, revoke_delete,
  revoke_valid, revoke_checked, revoke_handler,
}

module _ {W : Type 0} (queries : Queries) (d : Services W) (r : StandaloneRequest) (w : Writer)
    (untouched : w.status ≡ none) where
  -- The bindings to delete are gone: by one call with a query of their ids, or none if there are no
  -- such bindings.
  abbrev pub IsDeleted : String → List Binding → ℕ → W → W → Type 0
  IsDeleted url bindings deleted before after =
      ((bindings ≡ []) × (deleted ≡ 0) × (after ≡ before))
      ⊎ ((is_empty bindings ≡ false)
          × (query : Json) × (text : String) × FindsIds queries bindings query
          × (d.marshal query ≡ ok text)
          × HasSent d.client r.proxied url "DELETE" ("?" ⧺ "_q=" ⧺ text) none d.decode_count deleted
              before after)

  -- The bindings to patch are patched: by one call with the change of each, or none.
  abbrev pub IsPatched : String → List Binding → ℕ → W → W → Type 0
  IsPatched url bindings modified before after =
      ((bindings ≡ []) × (modified ≡ 0) × (after ≡ before))
      ⊎ ((is_empty bindings ≡ false)
          × HasSent d.client r.proxied url "PATCH" "" (some (array (map patch_of bindings)))
              d.decode_count modified before after)

  -- The answer tells both counts.
  abbrev pub IsCounted : ℕ → ℕ → Writer → Type 0
  IsCounted deleted modified w₁ =
      (text : String) × (d.marshal
          (object (("deletedBindings", int deleted) ∷ ("modifiedBindings", int modified) ∷ []))
        ≡ ok text)
      × (w₁ ≡ write w text)

  module _ (w₁ : Writer) (succeeds : Succeeds w₁) where
    revoke_respond-IsCounted :
        (deleted modified : ℕ) (world after : W)
        → revoke_respond d r w deleted modified world ≡ (ok w₁, after)
        → IsCounted deleted modified w₁ × (after ≡ world)
    unfolding revoke_respond
    revoke_respond-IsCounted deleted modified world after h =
        let (text, e, q, same) = respond-Succeeds d r w untouched w₁ succeeds _ _ world after h in
        ((text, e, q), same)

    -- The rest of the handler, from the bindings to patch on.
    revoke_patch-IsPatched :
        (url : String) (crud : Crud) (based : crud.base_url ≡ base_of url) (bindings : List Binding)
        (deleted : ℕ) (world after : W)
        → revoke_patch d r w crud bindings deleted world ≡ (ok w₁, after)
        → (modified : ℕ) × IsPatched url bindings modified world after
          × IsCounted deleted modified w₁
    unfolding revoke_patch
    revoke_patch-IsPatched url crud based [] deleted world after h =
        let (counted, same) = revoke_respond-IsCounted deleted 0 world after h in
        (0, inl (refl, refl, same), counted)
    revoke_patch-IsPatched url crud based (b ∷ bs) deleted world after h =
        let (modified, between, called, h1) =
          attempt-Succeeds d r w untouched
            (decoded d.decode_count
              (Crudclient.patch_bulk d.client crud r.proxied
                (patch_items_json (build_request_body_for_bindings_to_patch (b ∷ bs))))
              world)
            _ (λ m. revoke_respond d r w deleted m) after w₁ h succeeds in
        let (counted, same) = revoke_respond-IsCounted deleted modified between after h1 in
        (
          modified,
          inr (
            refl,
            subst
                (λ body.
                  HasSent d.client r.proxied url "PATCH" "" (some body) d.decode_count modified
                    world after)
                (patch_items_json-lem (b ∷ bs))
                (patch_bulk-HasSent d.client r.proxied url crud based d.decode_count modified world
                  after (patch_items_json (build_request_body_for_bindings_to_patch (b ∷ bs)))
                  (called ∙ ap (λ x. (ok modified, x)) (sym same))),
          ),
          counted,
        )

    revoke_delete-IsDeleted :
        (url : String) (crud : Crud) (based : crud.base_url ≡ base_of url)
        (to_patch to_delete : List Binding) (world after : W)
        → revoke_delete d r w crud to_patch to_delete world ≡ (ok w₁, after)
        → (deleted modified : ℕ) × (removed : W) × IsDeleted url to_delete deleted world removed
          × IsPatched url to_patch modified removed after
          × IsCounted deleted modified w₁
    unfolding revoke_delete
    revoke_delete-IsDeleted url crud based to_patch [] world after h =
        let (modified, patched, counted) =
          revoke_patch-IsPatched url crud based to_patch 0 world after h in
        (0, modified, world, inl (refl, refl, refl), patched, counted)
    revoke_delete-IsDeleted url crud based to_patch (b ∷ bs) world after h =
        let (query, asked, h1) =
          attempt-encoded d r w untouched (d.marshal (build_query_for_bindings_to_delete (b ∷ bs)))
            world _ _ after w₁ h succeeds in
        let (deleted, removed, called, h2) =
          attempt-Succeeds d r w untouched
            (decoded d.decode_count (Crudclient.delete d.client crud r.proxied ("_q=" ⧺ query))
              world)
            _ (λ n. revoke_patch d r w crud to_patch n) after w₁ h1 succeeds in
        let (modified, patched, counted) =
          revoke_patch-IsPatched url crud based to_patch deleted removed after h2 in
        (
          deleted,
          modified,
          removed,
          inr (
            refl,
            build_query_for_bindings_to_delete (b ∷ bs),
            query,
            build_query_for_bindings_to_delete-FindsIds queries (b ∷ bs),
            asked,
            delete-HasSent d.client r.proxied url crud based d.decode_count deleted world removed
                ("_q=" ⧺ query) called,
          ),
          patched,
          counted,
        )

    -- All that the handler has done: the bindings are looked up, split, deleted and patched.
    abbrev pub IsRevoked : EnvironmentVariables → RevokeRequestBody → W → W → Type 0
    IsRevoked env body world after =
        (query : Json) × (text : String) × (bindings : List Binding) × (deleted modified : ℕ)
        × (found removed : W) × (d.client.new (base_of env.bindings_crud_service_url) ≡ ok tt)
        × Finds queries r.resource_type body query
        × (d.marshal query ≡ ok text)
        × HasSent d.client r.proxied env.bindings_crud_service_url "GET"
            ("?" ⧺ "_q=" ⧺ text ⧺ "&_l=" ⧺ itoa 200) none d.decode_bindings bindings world found
        × IsDeleted env.bindings_crud_service_url (prepare_bindings d.lo bindings body).1 deleted
            found removed
        × IsPatched env.bindings_crud_service_url (prepare_bindings d.lo bindings body).0 modified
            removed after
        × IsCounted deleted modified w₁

    revoke_valid-IsRevoked :
        (env : EnvironmentVariables) (body : RevokeRequestBody) (world after : W)
        → (is_empty body.subjects && is_empty body.groups) ≡ false
        → revoke_valid d r w env body world ≡ (ok w₁, after)
        → IsRevoked env body world after
    unfolding revoke_valid
    revoke_valid-IsRevoked env body world after named h =
        let (crud, connects, h1) =
          attempt-encoded d r w untouched (Crudclient.new d.client env.bindings_crud_service_url)
            world _ _ after w₁ h succeeds in
        let (is_client, based) =
          new_lem d.client r.proxied env.bindings_crud_service_url crud connects in
        let (query, asks, h2) =
          attempt-encoded d r w untouched
            (d.marshal (build_query r.resource_type body.resource_ids body.subjects body.groups))
            world _ _ after w₁ h1 succeeds in
        let (bindings, found, finds, h3) =
          attempt-Succeeds d r w untouched
            (decoded d.decode_bindings
              (Crudclient.get d.client crud r.proxied
                ("_q=" ⧺ query ⧺ "&_l=" ⧺ itoa bindings_max_page_size))
              world)
            _
            (λ bs.
              let (to_patch, to_delete) = prepare_bindings d.lo bs body in
              revoke_delete d r w crud to_patch to_delete)
            after w₁ h2 succeeds in
        let (deleted, modified, removed, is_deleted, is_patched, counted) =
          revoke_delete-IsDeleted env.bindings_crud_service_url crud based
            (prepare_bindings d.lo bindings body).0 (prepare_bindings d.lo bindings body).1 found
            after h3 in
        (
          build_query r.resource_type body.resource_ids body.subjects body.groups,
          query,
          bindings,
          deleted,
          modified,
          found,
          removed,
          is_client,
          build_query-Finds queries r.resource_type body named,
          asks,
          get-HasSent d.client r.proxied env.bindings_crud_service_url crud based d.decode_bindings
              bindings world found ("_q=" ⧺ query ⧺ "&_l=" ⧺ itoa bindings_max_page_size) finds,
          is_deleted,
          is_patched,
          counted,
        )

    revoke_checked-IsRevoked :
        (env : EnvironmentVariables) (body : RevokeRequestBody) (world after : W)
        → revoke_checked d r w env body world ≡ (ok w₁, after)
        → ((not (r.resource_type == "") && is_empty body.resource_ids) ≡ false)
          × ((is_empty body.subjects && is_empty body.groups) ≡ false)
          × IsRevoked env body world after
    unfolding revoke_checked
    revoke_checked-IsRevoked env body world after h =
        elim (Bool-cases (not (r.resource_type == "") && is_empty body.resource_ids)) [
          | inl e ↦ absurd (
              failed-Succeeds d r w untouched 400 _ world after w₁ (λ x. omega (arith, x))
                (rw e at h) succeeds)
          | inr e ↦ elim (Bool-cases (is_empty body.subjects && is_empty body.groups)) [
            | inl f ↦ absurd (
                failed-Succeeds d r w untouched 400 _ world after w₁ (λ x. omega (arith, x))
                  (rw (e, f) at h) succeeds)
            | inr f ↦ (e, f, revoke_valid-IsRevoked env body world after f (rw (e, f) at h))
          ]
        ]

-- When `revokeHandler` answers 200, on a writer that has sent no status yet, the request is complete,
-- and the handler has called the CRUD service of the environment in this order, with the headers to
-- proxy, each call without an error: it has asked for at most 200 bindings by a query that matches
-- exactly those on the resources of the request, or on any without a resource type, that have one of
-- its subjects or groups; it has deleted those found that `prepareBindings` says, if any, by a query
-- that matches exactly their ids; and then has set the groups and subjects of those that it says to
-- patch, if any, to what is left of them. The answer has the numbers that the last two calls gave.
pub revoke_handler-IsRevoked :
    {W : Type 0} (queries : Queries) (d : Services W) (r : StandaloneRequest) (w : Writer)
    (world after : W) (w₁ : Writer) (untouched : w.status ≡ none) (succeeds : w₁.status ≡ some 200)
    → revoke_handler d r w world ≡ (ok w₁, after)
    → (env : EnvironmentVariables) × (body : RevokeRequestBody) × (r.env ≡ some env)
      × (d.decode_revoke r.body ≡ ok body)
      × ((not (r.resource_type == "") && is_empty body.resource_ids) ≡ false)
      × ((is_empty body.subjects && is_empty body.groups) ≡ false)
      × IsRevoked queries d r w untouched w₁ succeeds env body world after
unfolding revoke_handler
revoke_handler-IsRevoked queries d r w world after w₁ untouched succeeds h =
    let (env, p, h1) =
      attempt-encoded d r w untouched (get_env r.env) world (λ e. e.message) _ after w₁ h
        succeeds in
    let (body, q, h2) =
      attempt-encoded d r w untouched (d.decode_revoke r.body) world (λ e. e.message) _ after w₁ h1
        succeeds in
    let (typed, named, revoked) =
      revoke_checked-IsRevoked queries d r w untouched w₁ succeeds env body world after h2 in
    (env, body, get_env-ok r.env env p, q, typed, named, revoked)
