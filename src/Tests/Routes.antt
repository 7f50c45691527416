-- ===== src/Tests/Routes.antt =====
-- The routes that are registered, and the middlewares that a request passes.
use rond.Prelude.{false, [], ◌∷◌, ◌++◌, none, some, ◌≡◌, refl}
use rond.Prelude.Text.{◌⧺◌, to_upper}
use rond.Openapi.{VerbConfig, OpenApiSpec, oas_supported_http_methods}
use rond.Service.Router.{Route, Paths, always_proxy, collect_methods}
use rond.Service.Router.Methods.{collect_methods_lem}
use rond.Tests.Fixtures.{rond_config, verb_config_of}

abbrev pub plain_paths : Paths
plain_paths = record {
  sort_reversed = λ paths. paths;
  sort_reversed_lem = λ paths path. (λ m. m, λ m. m);
  join = ◌⧺◌;
}

abbrev verb : VerbConfig
verb = verb_config_of (some (rond_config "all_users"))

-- The verb `get` is dropped, `options` is kept.
collect_methods_lem_example :
    (collect_methods (("get", verb) ∷ []) [] ≡ "GET" ∷ [])
    × (collect_methods (("get", verb) ∷ ("all", verb) ∷ ("options", verb) ∷ []) []
        ≡ oas_supported_http_methods ++ "OPTIONS" ∷ [])
unfolding to_upper
collect_methods_lem_example =
    collect_methods_lem (("get", verb) ∷ []) (("options", verb) ∷ []) verb (refl, tt) (refl, tt)

abbrev pub documented : OpenApiSpec
documented = record {
  paths =
      ("/documentation/json", ("get", verb_config_of none) ∷ [])
      ∷ ("/users/*", ("all", verb) ∷ [])
      ∷ [];
}

abbrev documentation : Route
documentation = record {
  template = "/documentation/json";
  is_prefix = false;
  methods = some ("GET" ∷ []);
  handler = always_proxy;
}
