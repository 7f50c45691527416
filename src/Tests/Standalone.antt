-- ===== src/Tests/Standalone.antt =====
-- Revoking and granting.
use mathlib.Core.List.{Perm}
use rond.Prelude.{
  ℕ, ◌+◌, ◌==◌, if◌then◌else◌, String, false, not, ◌&&◌, is_empty, List, [], ◌∷◌, ◌++◌, map, none,
  some, ok, ◌≡◌, ◌↔◌, inl, refl, Memᴰ,
}
use rond.Prelude.Json.{null}
use rond.Http.Writer.{fresh, write}
use rond.Config.{EnvironmentVariables, get_env}
use rond.Helpers.{set_headers_to_proxy}
use rond.Service.Standalone.Revoked.{IsRevoked, revoke_handler-IsRevoked}
use rond.Service.Standalone.Incomplete.{
  IsRefused, LacksToRevoke, LacksToGrant, revoke_handler-IsRefused_iff, grant_handler-IsRefused_iff,
}
use rond.Service.Standalone.Created.{IsCreated, grant_handler-IsCreated}
use rond.Types.{Binding}
use rond.Utils.{filter_list}
use rond.Crudclient.{JsonClient, new, get, post, send, patch_bulk}
use rond.Service.Revoke.{
  RevokeRequestBody, strip, prepare_from, prepare_bindings, build_query, subject_or_groups,
}
use rond.Service.Revoke.Prepared.{
  IsStripped, AllRevoked, unused, prepare_bindings-perm, prepare_bindings-patched,
  prepare_bindings-deleted_iff,
}
use rond.Service.Standalone.Requests.{Services, StandaloneRequest, GrantRequestBody}
use rond.Service.Standalone.{
  revoke_handler, revoke_checked, revoke_valid, revoke_delete, revoke_patch, revoke_respond,
  respond,
}
use rond.Service.Standalone.Grant.{grant_handler, grant_checked, grant_valid}
use rond.Service.Standalone.GrantLaws.{grant_handler-ignores_permissions}
use rond.Tests.Fixtures.{binding, env, simple_lo, without, desk}
use rond.Tests.Queries.{queries}

abbrev revocation : List String → RevokeRequestBody
revocation subjects = record { subjects = subjects; groups = "g1" ∷ []; resource_ids = [] }

abbrev found : Binding
found = binding none [] []

prepare_bindings-perm_example :
    Perm
      ((prepare_bindings simple_lo (found ∷ []) (revocation ("u1" ∷ []))).0
        ++ (prepare_bindings simple_lo (found ∷ []) (revocation ("u1" ∷ []))).1)
      (map (strip simple_lo (revocation ("u1" ∷ []))) (found ∷ []))
prepare_bindings-perm_example =
    prepare_bindings-perm simple_lo (revocation ("u1" ∷ [])) (found ∷ [])

abbrev left : Binding
left = record found { groups = []; subjects = "u2" ∷ [] }

to_patch : prepare_bindings simple_lo (found ∷ []) (revocation ("u1" ∷ [])) ≡ (left ∷ [], [])
unfolding prepare_bindings prepare_from strip filter_list without
to_patch = refl

prepare_bindings-patched_example :
    (b : Binding) × Memᴰ b (found ∷ [])
    × IsStripped (revocation ("u1" ∷ [])) b left
    × (unused left ≡ false)
prepare_bindings-patched_example =
    prepare_bindings-patched simple_lo (revocation ("u1" ∷ [])) (found ∷ []) left
      (rw to_patch (Memᴰ.head refl))

prepare_bindings-deleted_iff_example :
    Memᴰ
      (strip simple_lo (revocation []) found)
      (prepare_bindings simple_lo (found ∷ []) (revocation [])).1
    ↔ (AllRevoked found.subjects [] × AllRevoked found.groups ("g1" ∷ []))
prepare_bindings-deleted_iff_example =
    prepare_bindings-deleted_iff simple_lo (revocation []) (found ∷ []) found (Memᴰ.head refl)

-- A client whose calls are counted and all answered by null.
abbrev counting : JsonClient ℕ
counting = record {
  new = λ url. ok tt;
  new_request = λ base method path body.
      ok (record { base_url = base; method = method; path = path; body = body; header = [] });
  do_json = λ req calls. (ok null, calls + 1);
}

abbrev asked : List String → GrantRequestBody
asked permissions = record {
  resource_id = "";
  subjects = "u1" ∷ [];
  groups = [];
  roles = [];
  permissions = permissions;
}

abbrev services : Services ℕ
services = record {
  lo = simple_lo;
  client = counting;
  marshal = λ j. ok "{}";
  decode_revoke = λ text. ok (revocation []);
  decode_grant = λ text. ok (asked (if text == "plain" then [] else "write" ∷ []));
  decode_bindings = λ j. ok [];
  decode_count = λ j. ok 0;
  decode_created = λ j. ok (record { object_id = "1" });
  new_uuid = λ calls. ("uuid", calls);
}

abbrev request : String → String → StandaloneRequest
request resource_type body = record {
  env = some env;
  proxied = none;
  resource_type = resource_type;
  body = body;
}

revoke_handler-IsRefused_iff_example :
    IsRefused (revoke_handler services (request "desk" "") fresh) 0 0 ↔ (
      (e : EnvironmentVariables) × (body : RevokeRequestBody) × (some env ≡ some e)
      × (ok (revocation []) ≡ ok body)
      × LacksToRevoke "desk" body
      × (◌≡◌ {A = ℕ} 0 0))
revoke_handler-IsRefused_iff_example =
    revoke_handler-IsRefused_iff services (request "desk" "") fresh refl 0 0

grant_handler-IsRefused_iff_example :
    IsRefused (grant_handler services (request "desk" "plain") fresh) 0 0 ↔ (
      (e : EnvironmentVariables) × (body : GrantRequestBody) × (some env ≡ some e)
      × (ok (asked []) ≡ ok body)
      × LacksToGrant "desk" body
      × (◌≡◌ {A = ℕ} 0 0))
grant_handler-IsRefused_iff_example =
    grant_handler-IsRefused_iff services (request "desk" "plain") fresh refl 0 0

grant_handler-ignores_permissions_example :
    grant_handler services (request "" "plain") fresh 0
    ≡ grant_handler services (request "" "write") fresh 0
grant_handler-ignores_permissions_example =
    grant_handler-ignores_permissions services (request "" "plain") fresh env (asked [])
      ("write" ∷ []) "write" 0 refl refl refl (inl refl)

-- One binding is found on the desk, and one of its two subjects is revoked.
abbrev on_desk : Binding
on_desk = record found { resource = some desk }

abbrev from_desk : RevokeRequestBody
from_desk = record (revocation ("u1" ∷ [])) { resource_ids = "d1" ∷ [] }

abbrev finding : Services ℕ
finding = record services {
  decode_revoke = λ text. ok from_desk;
  decode_bindings = λ j. ok (on_desk ∷ []);
  decode_count = λ j. ok 1;
}

revoked : revoke_handler finding (request "desk" "") fresh 0 ≡ (ok (write fresh "{}"), 2)
unfolding revoke_handler get_env revoke_checked revoke_valid new build_query subject_or_groups get
    send set_headers_to_proxy prepare_bindings prepare_from strip filter_list without revoke_delete
    revoke_patch patch_bulk revoke_respond respond
revoked = refl

answered : (write fresh "{}").status ≡ some 200
unfolding write
answered = refl

revoke_handler-IsRevoked_example :
    (e : EnvironmentVariables) × (body : RevokeRequestBody) × (some env ≡ some e)
    × (ok from_desk ≡ ok body)
    × ((not ("desk" == "") && is_empty body.resource_ids) ≡ false)
    × ((is_empty body.subjects && is_empty body.groups) ≡ false)
    × IsRevoked queries finding
        (request "desk" "")
        fresh
        refl
        (write fresh "{}")
        answered
        e
        body
        0
        2
revoke_handler-IsRevoked_example =
    revoke_handler-IsRevoked queries finding (request "desk" "") fresh 0 2 (write fresh "{}") refl
      answered revoked

created : grant_handler services (request "" "plain") fresh 0 ≡ (ok (write fresh "{}"), 1)
unfolding grant_handler get_env grant_checked grant_valid new post send set_headers_to_proxy respond
created = refl

grant_handler-IsCreated_example :
    (e : EnvironmentVariables) × (body : GrantRequestBody) × (some env ≡ some e)
    × (ok (asked []) ≡ ok body)
    × ((not ("" == "") && (body.resource_id == "")) ≡ false)
    × ((is_empty body.groups
          && is_empty body.permissions
          && is_empty body.subjects
          && is_empty body.roles)
        ≡ false)
    × IsCreated services (request "" "plain") fresh refl (write fresh "{}") answered e body 0 1
grant_handler-IsCreated_example =
    grant_handler-IsCreated services (request "" "plain") fresh 0 1 (write fresh "{}") refl answered
      created
