-- ===== src/Openapi/Load/Retried.antt =====
-- The loop that fetches the specification.
use rond.Prelude.{
  true, false, ℕ, suc, zero, ◌+◌, ◌<◌, String, some, ok, err, ◌==◌, ◌≡◌, refl, arith, GoError,
}
use mathlib.Core.Path.{subst}
use rond.Config.{EnvironmentVariables}
use rond.Openapi.{OpenApiSpec}
use rond.Openapi.Load.{
  Sources, fetch_open_api, retry_fetch, load_oas_from_file_or_network, documentation_url,
}

module _ (sources : Sources) (url : String) where
  -- The attempts from the first on, as many as given, all fail.
  abbrev pub AllFail : ℕ → ℕ → Type 0
  AllFail first zero = Unit
  AllFail first (suc n) =
      ((e : GoError) × (fetch_open_api sources first url ≡ err e)) × AllFail (suc first) n

  pub retry_fetch_lem :
      (n fuel first : ℕ) (oas : OpenApiSpec)
      → AllFail first n
      → fetch_open_api sources (n + first) url ≡ ok oas
      → n < fuel
      → retry_fetch sources fuel first url ≡ some (ok oas)
  unfolding retry_fetch
  retry_fetch_lem n zero first oas fails h lt = ground arith
  retry_fetch_lem zero (suc fuel) first oas fails h lt =
      once first (subst (λ k. fetch_open_api sources k url ≡ ok oas) (omega arith) h)
    where
      once :
          (m : ℕ)
          → fetch_open_api sources m url ≡ ok oas
          → retry_fetch sources (suc fuel) m url ≡ some (ok oas)
      once m p = rw (p, retry_fetch) refl
  retry_fetch_lem (suc n) (suc fuel) first oas ((e, failed), fails) h lt =
      rw (failed, retry_fetch) (retry_fetch_lem n fuel (suc first) oas fails later (omega arith))
    where
      later : fetch_open_api sources (n + suc first) url ≡ ok oas
      later = subst (λ k. fetch_open_api sources k url ≡ ok oas) (omega arith) h

-- Without a file of permissions, the specification is fetched until an attempt gives one: if all
-- before attempt `n` fail and that one succeeds, then its specification is loaded, and `n + 1`
-- rounds of the loop are enough.
pub load_oas_from_file_or_network-retries :
    (sources : Sources) (env : EnvironmentVariables) (n fuel : ℕ) (oas : OpenApiSpec)
    → (env.api_permissions_file_path == "") ≡ true
    → (env.target_service_oas_path == "") ≡ false
    → AllFail sources (documentation_url env) 0 n
    → fetch_open_api sources n (documentation_url env) ≡ ok oas
    → n < fuel
    → load_oas_from_file_or_network sources fuel env ≡ some (ok oas)
unfolding load_oas_from_file_or_network
load_oas_from_file_or_network-retries sources env n fuel oas no_file path fails fetched lt =
    rw (no_file, path)
      (retry_fetch_lem sources (documentation_url env) n fuel 0 oas fails
        (subst (λ k. fetch_open_api sources k (documentation_url env) ≡ ok oas) (omega arith)
          fetched)
        lt)
