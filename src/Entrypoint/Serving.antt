-- ===== src/Entrypoint/Serving.antt =====
-- What the server finds once the program has started.
use mathlib.Core.Path.{subst}
use rond.Prelude.{
  ℕ, String, Bool, true, false, Option, none, some, Result, ok, err, panic, ◌==◌, ◌≡◌, ◌⊎◌, inl,
  inr, refl, sym, ap, ◌∙◌, Bool-cases,
}
use rond.Prelude.Map.{lookup}
use rond.Config.{EnvironmentVariables, get_env_or_die}
use rond.Config.Variables.{env_variables_config}
use rond.Config.Startup.{IsUsable, get_env_or_die_iff}
use rond.Openapi.{OpenApiSpec, RondConfig}
use rond.Openapi.Routes.{Registration, prepare_oas_router}
use rond.Openapi.Routing.{Origin}
use rond.Openapi.FindPermission.{Bunrouter, find_permission}
use rond.Openapi.FindPermission.Recorded.{find_permission_sound}
use rond.Core.Context.{OpaModuleConfig}
use rond.Core.Evaluators.Setup.{create_partial_evaluator, setup_evaluators}
use rond.Core.Evaluators.Ensured.{Names, NamesInPaths, Prepares}
use rond.Core.Evaluators.Prepared.{setup_evaluators-Prepares}
use rond.Openapi.Load.{load_oas_from_file_or_network}
use rond.Mongo.Setup.{new_mongo_client}
use rond.Core.RegoModule.{load_rego_module}
use rond.Core.Middleware.{is_some}
use rond.Service.Server.{setup_router}
use rond.Entrypoint.{
  Server, Started, serving, Outside, or_panic, or_return, or_fetching, start, entrypoint,
}

or_panic-serving :
    {A P : Type 0} (m : Result A) (f : A → Started P) (server : Server P)
    → or_panic m f ≡ serving server
    → (a : A) × (m ≡ ok a) × (f a ≡ serving server)
or_panic-serving (ok a) f server h = (a, refl, h)
or_panic-serving (err e) f server h = cc
or_panic-serving panic f server h = cc

or_return-serving :
    {A P : Type 0} (text : String) (disconnects : Bool) (m : Result A) (f : A → Started P)
    (server : Server P)
    → or_return text disconnects m f ≡ serving server
    → (a : A) × (m ≡ ok a) × (f a ≡ serving server)
or_return-serving text disconnects (ok a) f server h = (a, refl, h)
or_return-serving text disconnects (err e) f server h = cc
or_return-serving text disconnects panic f server h = cc

or_fetching-serving :
    {A P : Type 0} (m : Option A) (f : A → Started P) (server : Server P)
    → or_fetching m f ≡ serving server
    → (a : A) × (m ≡ some a) × (f a ≡ serving server)
or_fetching-serving none f server h = cc
or_fetching-serving (some a) f server h = (a, refl, h)

-- What a route asks for is what the verb says from which it comes.
Origin-config : (oas : OpenApiSpec) (r : Registration) (o : Origin oas r) → r.config ≡ o.config
Origin-config oas r o = elim o.serves [
  | inl (q, _) ↦ ap (λ x. x.config) q
  | inr (_, _, _, q) ↦ ap (λ x. x.config) q
]

module _ {V P C : Type 0} (outside : Outside V P C) where
  -- The environment is usable, and the evaluators are those of the specification.
  abbrev pub IsPrepared : Server P → Type 0
  IsPrepared server =
      IsUsable server.env
      × Prepares outside.opa true server.opa_module server.env (NamesInPaths server.oas.paths)
          server.evaluators

  start-IsPrepared :
      (env : EnvironmentVariables) (opa_module : OpaModuleConfig) (oas : OpenApiSpec)
      (server : Server P)
      → IsUsable env
      → start outside env opa_module oas ≡ serving server
      → IsPrepared server
  unfolding start
  start-IsPrepared env opa_module oas server usable h =
      let (client, _, h1) =
        or_return-serving "MongoDB setup failed" false (new_mongo_client outside.driver env) _
          server h in
      let (evaluators, p, h2) =
        or_return-serving "failed to create evaluators" false
          (setup_evaluators outside.opa true opa_module env oas) _ server h1 in
      let (entries, _, h3) =
        or_return-serving "failed router setup" (is_some client)
          (setup_router outside.swagger env outside.router outside.lo outside.paths oas) _ server
          h2 in
      subst IsPrepared (ap (server_or server) h3)
        (usable, setup_evaluators-Prepares outside.opa true opa_module env oas evaluators p)
    where
      server_or : Server P → Started P → Server P
      server_or default (serving s) = s
      server_or default _ = default

  entrypoint-IsPrepared :
      (attempts : ℕ) (server : Server P)
      → entrypoint outside attempts ≡ serving server
      → IsPrepared server
  unfolding entrypoint
  entrypoint-IsPrepared attempts server h =
      let (env, p, h1) =
        or_panic-serving (get_env_or_die (outside.get_env_variables env_variables_config)) _ server
          h in
      let (_, _, h2) = or_panic-serving (outside.init_logger env.log_level) _ server h1 in
      let (_, _, h3) =
        or_return-serving "load OPA modules failed" false (outside.stat env.opa_modules_directory) _
          server h2 in
      let (opa_module, _, h4) =
        or_return-serving "failed rego file read" false
          (load_rego_module outside.files env.opa_modules_directory) _ server h3 in
      let (loaded, _, h5) =
        or_fetching-serving (load_oas_from_file_or_network outside.sources attempts env) _ server
          h4 in
      let (oas, _, h6) =
        or_return-serving "failed to load oas" false loaded (start outside env opa_module) server
          h5 in
      start-IsPrepared env opa_module oas server
        ((get_env_or_die_iff (outside.get_env_variables env_variables_config) env).0 p).1 h6

  -- The evaluator of a policy is there, and is the one that the engine gives for the policy.
  abbrev pub HasEvaluator : Server P → String → Type 0
  HasEvaluator server policy =
      (evaluator : P) × (lookup policy server.evaluators ≡ some evaluator)
      × (create_partial_evaluator outside.opa true server.opa_module server.env policy
          ≡ ok evaluator)

  named-HasEvaluator :
      (server : Server P) (policy : String)
      → IsPrepared server
      → NamesInPaths server.oas.paths policy
      → HasEvaluator server policy
  named-HasEvaluator server policy (_, (has, is_made)) n =
      let (e, there) = has policy n in (e, there, (is_made policy e there).1)

  -- Once the program serves, its environment is usable, and for every permission that
  -- `FindPermission` gives for a request without an error, and that names a policy for requests,
  -- there are the evaluator of this policy and that of the policy for responses, if it names one.
  pub entrypoint-HasEvaluator :
      (attempts : ℕ) (server : Server P) (router : Bunrouter) (path method : String)
      (permission : RondConfig)
      → entrypoint outside attempts ≡ serving server
      → find_permission router (prepare_oas_router server.oas) path method ≡ ok (permission, none)
      → (permission.request_flow.policy_name == "") ≡ false
      → IsUsable server.env
        × HasEvaluator server permission.request_flow.policy_name
        × (((permission.response_flow.policy_name == "") ≡ true)
            ⊎ HasEvaluator server permission.response_flow.policy_name)
  entrypoint-HasEvaluator attempts server router path method permission h found named =
      let prepared = entrypoint-IsPrepared attempts server h in
      let (r, _, _, there, origin) =
        find_permission_sound router server.oas path method permission found in
      let names : (policy : String)
          → Names permission policy
          → NamesInPaths server.oas.paths policy =
        λ policy n. (
          origin.path,
          origin.verbs,
          origin.listed,
          (
            origin.verb,
            origin.config,
            origin.verb_listed,
            (
              permission,
              ap (λ c. c.permission_v2) (sym (Origin-config server.oas r origin)) ∙ there,
              n,
            ),
          ),
        ) in
      (
        prepared.0,
        named-HasEvaluator server _ prepared (names _ (named, inl refl)),
        elim (Bool-cases (permission.response_flow.policy_name == "")) [
          | inl e ↦ inl e
          | inr e ↦ inr (named-HasEvaluator server _ prepared (names _ (named, inr (refl, e))))
        ],
      )
