-- ===== src/Entrypoint.antt =====
-- `entrypoint` of main.go: from the environment to a server, step by step. What the steps call of
-- other packages is a parameter.
pub mod Serving
use rond.Prelude.{
  ℕ, String, Bool, true, false, List, Option, none, some, Result, ok, err, panic, GoError,
}
use rond.Utils.{Lo}
use rond.Config.{EnvironmentVariables, get_env_or_die}
use rond.Config.Variables.{EnvConfig, env_variables_config}
use rond.Helpers.GracefulShutdown.{Effect, graceful_shutdown}
use rond.Openapi.{OpenApiSpec}
use rond.Openapi.FindPermission.{Bunrouter}
use rond.Openapi.Load.{Sources, load_oas_from_file_or_network}
use rond.Mongo.{MongoClient}
use rond.Mongo.Setup.{Driver, new_mongo_client}
use rond.Core.Context.{OpaModuleConfig, PartialResultsEvaluators}
use rond.Core.RegoModule.{FileSystem, load_rego_module}
use rond.Core.Evaluators.{Opa}
use rond.Core.Evaluators.Setup.{setup_evaluators}
use rond.Core.Middleware.{is_some}
use rond.Service.Router.{Paths}
use rond.Service.Server.{Entry, Swagger, setup_router}

-- What the server answers with.
pub record Server (P : Type 0) : Type 0 where
  pub env : EnvironmentVariables
  pub opa_module : OpaModuleConfig
  pub oas : OpenApiSpec
  pub client : Option MongoClient
  pub evaluators : PartialResultsEvaluators P
  pub entries : List Entry

-- The program dies in a panic, or returns with an error that is logged, and then has disconnected
-- from MongoDB or not, or goes on asking for the specification, or serves.
pub data Started (P : Type 0) : Type 0 where
  panicked : Started P
  returned : String → Bool → Started P
  fetching : Started P
  serving : Server P → Started P

-- What the steps call: configlib on the table of variables, the logger, `os.Stat`, the files, the
-- specification's sources, MongoDB, the engine and the routers.
pub record Outside (V P C : Type 0) : Type 0 where
  pub get_env_variables : List EnvConfig → Result EnvironmentVariables
  pub init_logger : String → Result (Unit {0})
  pub stat : String → Result (Unit {0})
  pub files : FileSystem
  pub sources : Sources
  pub driver : Driver C
  pub opa : Opa V P
  pub swagger : Swagger
  pub router : Bunrouter
  pub lo : Lo
  pub paths : Paths

abbrev pub or_panic : {A P : Type 0} → Result A → (A → Started P) → Started P
or_panic (ok a) f = f a
or_panic (err e) f = panicked
or_panic panic f = panicked

abbrev pub or_return : {A P : Type 0} → String → Bool → Result A → (A → Started P) → Started P
or_return text disconnects (ok a) f = f a
or_return text disconnects (err e) f = returned text disconnects
or_return text disconnects panic f = panicked

abbrev pub or_fetching : {A P : Type 0} → Option A → (A → Started P) → Started P
or_fetching none f = fetching
or_fetching (some a) f = f a

module _ {V P C : Type 0} (outside : Outside V P C) where
  -- From the specification on. A nil client is no nil interface, so that `SetupEvaluators` always
  -- finds one.
  unfoldable pub start : EnvironmentVariables → OpaModuleConfig → OpenApiSpec → Started P
  start env opa_module oas =
      or_return "MongoDB setup failed" false (new_mongo_client outside.driver env) λ client.
        or_return "failed to create evaluators" false
          (setup_evaluators outside.opa true opa_module env oas)
          λ evaluators.
            or_return "failed router setup" (is_some client)
              (setup_router outside.swagger env outside.router outside.lo outside.paths oas)
              λ entries. serving (record {
                env = env;
                opa_module = opa_module;
                oas = oas;
                client = client;
                evaluators = evaluators;
                entries = entries;
              })

  -- With so many attempts to fetch the specification.
  unfoldable pub entrypoint : ℕ → Started P
  entrypoint attempts =
      or_panic (get_env_or_die (outside.get_env_variables env_variables_config)) λ env.
        or_panic (outside.init_logger env.log_level) λ _.
          or_return "load OPA modules failed" false (outside.stat env.opa_modules_directory) λ _.
            or_return "failed rego file read" false
              (load_rego_module outside.files env.opa_modules_directory)
              λ opa_module.
                or_fetching (load_oas_from_file_or_network outside.sources attempts env)
                  λ loaded. or_return "failed to load oas" false loaded (start env opa_module)

-- What follows the signal to stop, with the errors of `Shutdown` and `Close`, and whether the
-- program disconnects from MongoDB.
unfoldable pub stop : {P : Type 0} → Server P → Option GoError → Option GoError → List Effect × Bool
stop server shutdown_error close_error = (
  graceful_shutdown server.env.delay_shutdown_seconds shutdown_error close_error,
  is_some server.client,
)
