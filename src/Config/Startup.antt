-- ===== src/Config/Startup.antt =====
-- `GetEnvOrDie` of internal/config/env.go.
use rond.Prelude.{true, ◌≡◌, ◌≢◌, ◌↔◌, ◌⊎◌, ap, arith, Result, ok, err, panic, eq_iff}
use rond.Config.{EnvironmentVariables, get_env_or_die}

-- What the program needs of its environment.
pub record IsUsable (env : EnvironmentVariables) : Type 0 where
  pub reachable : (env.target_service_host ≢ "") ⊎ (env.standalone ≡ true)
  pub has_crud : env.standalone ≡ true → env.bindings_crud_service_url ≢ ""

kept : (e env : EnvironmentVariables) → get_env_or_die (ok e) ≡ ok env → e ≡ env
unfolding get_env_or_die
kept e env h = ground arith

module _ (env : EnvironmentVariables) where
  IsUsable-of : get_env_or_die (ok env) ≡ ok env → IsUsable env
  unfolding get_env_or_die
  IsUsable-of h = record {
    reachable = ground (arith, eq_iff env.target_service_host "");
    has_crud = λ st. ground (arith, eq_iff env.bindings_crud_service_url "");
  }

  get_env_or_die_of : IsUsable env → get_env_or_die (ok env) ≡ ok env
  unfolding get_env_or_die
  get_env_or_die_of u = ground (
    arith,
    u.reachable,
    u.has_crud,
    eq_iff env.target_service_host "",
    eq_iff env.bindings_crud_service_url "",
  )

-- The process goes on with an environment exactly if it was read and is usable: a target host or
-- the standalone mode, and in that mode the URL of the bindings' CRUD service.
pub get_env_or_die_iff :
    (loaded : Result EnvironmentVariables) (env : EnvironmentVariables)
    → (get_env_or_die loaded ≡ ok env) ↔ ((loaded ≡ ok env) × IsUsable env)
get_env_or_die_iff (err e) env = unfold get_env_or_die in (λ h. cc, λ h. cc h.0)
get_env_or_die_iff panic env = unfold get_env_or_die in (λ h. cc, λ h. cc h.0)
get_env_or_die_iff (ok e) env = (
  λ h. (ap ok (kept e env h), IsUsable-of env (rw (kept e env h) at h)),
  λ h. rw h.0 (get_env_or_die_of env h.1),
)
