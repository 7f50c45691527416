-- ===== src/Service/Router/AlwaysProxied.antt =====
-- The routes of `setupRoutes` whose handler evaluates no policy.
use rond.Prelude.{false, [], ◌∷◌, none, some, Option, ◌≡◌, ◌⊎◌}
use rond.Prelude.Map.{lookup}
use rond.Utils.{Lo}
use rond.Config.{EnvironmentVariables}
use rond.Openapi.{OpenApiSpec, PathVerbs, VerbConfig, RondConfig}
use rond.Service.Router.{always_proxy, Route, Paths, path_to_register, route}

-- The specification does not list a path, or has no operation to GET it, or this operation has no
-- permission, or its permission has the empty policy for requests.
abbrev pub NamesNoPolicy : Option PathVerbs → Type 0
NamesNoPolicy listed =
    (listed ≡ none)
    ⊎ ((verbs : PathVerbs) × (listed ≡ some verbs)
        × ((lookup "get" verbs ≡ none)
            ⊎ ((operation : VerbConfig) × (lookup "get" verbs ≡ some operation)
                × ((operation.permission_v2 ≡ none)
                    ⊎ ((permission : RondConfig) × (operation.permission_v2 ≡ some permission)
                        × (permission.request_flow.policy_name ≡ ""))))))

module _ (lo : Lo) (p : Paths) (oas : OpenApiSpec) (env : EnvironmentVariables) where
  -- The route of the documentation of the API, on the target's path: one that the specification
  -- lists, for GET alone, or one that it does not list, for every method.
  abbrev pub IsDocumentation : Route → Type 0
  IsDocumentation r =
      ((r
          ≡ route lo p oas env (path_to_register lo p oas env env.target_service_oas_path) false
              (some ("GET" ∷ [])) always_proxy)
        × NamesNoPolicy (lookup env.target_service_oas_path oas.paths))
      ⊎ ((r ≡ route lo p oas env env.target_service_oas_path false none always_proxy)
          × (lookup env.target_service_oas_path oas.paths ≡ none))
