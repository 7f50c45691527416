-- ===== src/Service/Standalone/Incomplete.antt =====
-- Which requests the handlers of service/standalone_apis.go answer 400.
use rond.Prelude.{
  String, false, true, not, ◌&&◌, List, [], ◌∷◌, is_empty, none, some, ok, ◌==◌, ◌≡◌, ◌≢◌, ◌⊎◌, ◌↔◌,
  inl, inr, refl, sym, ap, ◌∙◌, Bool, Bool-cases, arith, eq_iff,
}
use rond.Http.Writer.{Writer}
use rond.Utils.{fail_response_with_code, generic_business_error_message}
use rond.Utils.Failed.{status-fail_response_with_code}
use rond.Config.{EnvironmentVariables, get_env, get_env-ok}
use rond.Service.Revoke.{RevokeRequestBody}
use rond.Service.Standalone.Requests.{Services, StandaloneRequest, GrantRequestBody, Served}
use rond.Service.Standalone.Statuses.{
  IsServed-other, attempt-refused, revoke_valid-IsServed, grant_valid-IsServed,
}
use rond.Service.Standalone.{failed, revoke_checked, revoke_handler}
use rond.Service.Standalone.Grant.{grant_checked, grant_handler}

-- A handler has been run, and has answered 400.
abbrev pub IsRefused : {W : Type 0} → Served W → W → W → Type 0
IsRefused run world after = (w₁ : Writer) × (run world ≡ (ok w₁, after)) × (w₁.status ≡ some 400)

-- A resource type without ids, or neither subjects nor groups.
abbrev pub LacksToRevoke : String → RevokeRequestBody → Type 0
LacksToRevoke resource_type body =
    ((resource_type ≢ "") × (body.resource_ids ≡ [])) ⊎ ((body.subjects ≡ []) × (body.groups ≡ []))

-- A resource type without an id, or none of groups, permissions, subjects and roles.
abbrev pub LacksToGrant : String → GrantRequestBody → Type 0
LacksToGrant resource_type body =
    ((resource_type ≢ "") × (body.resource_id ≡ ""))
    ⊎ ((body.groups ≡ []) × (body.permissions ≡ []) × (body.subjects ≡ []) × (body.roles ≡ []))

empty_list : (xs : List String) → is_empty xs ≡ true → xs ≡ []
empty_list [] h = refl
empty_list (x ∷ xs) h = cc

both : (a b : Bool) → (a && b) ≡ true → (a ≡ true) × (b ≡ true)
both true b h = (refl, h)
both false b h = cc

not_empty : (text : String) → not (text == "") ≡ true → text ≢ ""
not_empty text h e = let k = (eq_iff text "").1 e in ground arith

module _ {W : Type 0} (d : Services W) (r : StandaloneRequest) (w : Writer)
    (untouched : w.status ≡ none) where
  failed-IsRefused :
      (technical : String) (world : W) → IsRefused (failed d r w 400 technical) world world
  unfolding failed
  failed-IsRefused technical world = (
    fail_response_with_code d.marshal w 400 technical generic_business_error_message,
    refl,
    status-fail_response_with_code d.marshal w 400 technical generic_business_error_message
        untouched,
  )

  revoke_checked-LacksToRevoke :
      (env : EnvironmentVariables) (body : RevokeRequestBody) (world after : W) (w₁ : Writer)
      → revoke_checked d r w env body world ≡ (ok w₁, after)
      → w₁.status ≡ some 400
      → LacksToRevoke r.resource_type body × (after ≡ world)
  unfolding revoke_checked failed
  revoke_checked-LacksToRevoke env body world after w₁ h s =
      elim (Bool-cases (not (r.resource_type == "") && is_empty body.resource_ids)) [
        | inl e ↦ (
          inl (
              let (a, b) = both _ _ e in
              (not_empty r.resource_type a, empty_list body.resource_ids b)),
          sym (ap (λ p. p.1) (rw e at h)),
        )
        | inr e ↦ elim (Bool-cases (is_empty body.subjects && is_empty body.groups)) [
          | inl f ↦ (
            inr (let (a, b) = both _ _ f in (empty_list body.subjects a, empty_list body.groups b)),
            sym (ap (λ p. p.1) (rw (e, f) at h)),
          )
          | inr f ↦ absurd (
              IsServed-other w₁
                (revoke_valid-IsServed d r w untouched w₁ after env body world (rw (e, f) at h)) s)
        ]
      ]

  revoke_checked-IsRefused :
      (env : EnvironmentVariables) (body : RevokeRequestBody) (world : W)
      → LacksToRevoke r.resource_type body
      → IsRefused (revoke_checked d r w env body) world world
  unfolding revoke_checked
  revoke_checked-IsRefused env body world (inl (typed, lacking)) =
      let e : (not (r.resource_type == "") && is_empty body.resource_ids) ≡ true =
        rw lacking (ground (arith, eq_iff r.resource_type "", typed)) in
      rw e (failed-IsRefused "empty resources list" world)
  revoke_checked-IsRefused env body world (inr (s, g)) =
      elim (Bool-cases (not (r.resource_type == "") && is_empty body.resource_ids)) [
        | inl e ↦ rw e (failed-IsRefused "empty resources list" world)
        | inr e ↦ rw (e, s, g) (failed-IsRefused "empty subjects and groups lists" world)
      ]

  -- `revokeHandler` answers 400 exactly when it has an environment and a body that can be read, and
  -- the request has a resource type without ids, or neither subjects nor groups. Then nothing is
  -- called.
  pub revoke_handler-IsRefused_iff :
      (world after : W)
      → IsRefused (revoke_handler d r w) world after ↔ (
          (env : EnvironmentVariables) × (body : RevokeRequestBody) × (r.env ≡ some env)
          × (d.decode_revoke r.body ≡ ok body)
          × LacksToRevoke r.resource_type body
          × (after ≡ world))
  unfolding revoke_handler get_env
  revoke_handler-IsRefused_iff world after = (
    λ (w₁, h, s).
        let (env, p, h1) = attempt-refused d r w untouched w₁ after (get_env r.env) world _ _ h s in
        let (body, q, h2) =
          attempt-refused d r w untouched w₁ after (d.decode_revoke r.body) world _ _ h1 s in
        let (lacks, same) = revoke_checked-LacksToRevoke env body world after w₁ h2 s in
        (env, body, get_env-ok r.env env p, q, lacks, same),
    λ (env, body, here, read, lacks, same).
        let (w₁, h, s) = revoke_checked-IsRefused env body world lacks in
        let e : revoke_handler d r w world ≡ revoke_checked d r w env body world =
          rw (here, read) in
        (w₁, e ∙ h ∙ ap (λ x. (ok w₁, x)) (sym same), s),
  )

  grant_checked-LacksToGrant :
      (env : EnvironmentVariables) (body : GrantRequestBody) (world after : W) (w₁ : Writer)
      → grant_checked d r w env body world ≡ (ok w₁, after)
      → w₁.status ≡ some 400
      → LacksToGrant r.resource_type body × (after ≡ world)
  unfolding grant_checked failed
  grant_checked-LacksToGrant env body world after w₁ h s =
      elim (Bool-cases (not (r.resource_type == "") && (body.resource_id == ""))) [
        | inl e ↦ (
          inl (let (a, b) = both _ _ e in (not_empty r.resource_type a, (eq_iff _ _).0 b)),
          sym (ap (λ p. p.1) (rw e at h)),
        )
        | inr e ↦
            elim (Bool-cases (
              is_empty body.groups
              && is_empty body.permissions
              && is_empty body.subjects
              && is_empty body.roles)) [
                | inl f ↦ (
                  inr (
                      let (gps, ro) = both _ _ f in
                      let (gp, su) = both _ _ gps in
                      let (g, p) = both _ _ gp in
                      (empty_list _ g, empty_list _ p, empty_list _ su, empty_list _ ro)),
                  sym (ap (λ p. p.1) (rw (e, f) at h)),
                )
                | inr f ↦ absurd (
                    IsServed-other w₁
                      (grant_valid-IsServed d r w untouched w₁ after env body world
                        (rw (e, f) at h))
                      s)
              ]
      ]

  grant_checked-IsRefused :
      (env : EnvironmentVariables) (body : GrantRequestBody) (world : W)
      → LacksToGrant r.resource_type body
      → IsRefused (grant_checked d r w env body) world world
  unfolding grant_checked
  grant_checked-IsRefused env body world (inl (typed, lacking)) =
      let e : (not (r.resource_type == "") && (body.resource_id == "")) ≡ true =
        ground (arith, eq_iff r.resource_type "", eq_iff body.resource_id "", lacking, typed) in
      rw e (failed-IsRefused "missing resource id" world)
  grant_checked-IsRefused env body world (inr (g, p, s, ro)) =
      elim (Bool-cases (not (r.resource_type == "") && (body.resource_id == ""))) [
        | inl e ↦ rw e (failed-IsRefused "missing resource id" world)
        | inr e ↦
            rw (e, g, p, s, ro)
              (failed-IsRefused
                "missing body fields, one of groups, permissions, subjects or roles is required"
                world)
      ]

  -- `grantHandler` answers 400 exactly when it has an environment and a body that can be read, and the
  -- request has a resource type without an id, or a body that names neither groups nor permissions,
  -- subjects or roles. Then nothing is called.
  pub grant_handler-IsRefused_iff :
      (world after : W)
      → IsRefused (grant_handler d r w) world after ↔ (
          (env : EnvironmentVariables) × (body : GrantRequestBody) × (r.env ≡ some env)
          × (d.decode_grant r.body ≡ ok body)
          × LacksToGrant r.resource_type body
          × (after ≡ world))
  unfolding grant_handler get_env
  grant_handler-IsRefused_iff world after = (
    λ (w₁, h, s).
        let (env, p, h1) = attempt-refused d r w untouched w₁ after (get_env r.env) world _ _ h s in
        let (body, q, h2) =
          attempt-refused d r w untouched w₁ after (d.decode_grant r.body) world _ _ h1 s in
        let (lacks, same) = grant_checked-LacksToGrant env body world after w₁ h2 s in
        (env, body, get_env-ok r.env env p, q, lacks, same),
    λ (env, body, here, read, lacks, same).
        let (w₁, h, s) = grant_checked-IsRefused env body world lacks in
        let e : grant_handler d r w world ≡ grant_checked d r w env body world = rw (here, read) in
        (w₁, e ∙ h ∙ ap (λ x. (ok w₁, x)) (sym same), s),
  )
