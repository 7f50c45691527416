-- ===== src/Lib.antt =====
-- rond is a sidecar that authorizes the requests of a service: it finds the permission of a request
-- in the OpenAPI specification, evaluates the OPA policy that this names on an input made of the
-- request and of the bindings and roles of its user, and then proxies the request, with a filter for
-- the rows that the user may see, or answers it; a second policy may change the response.
--
-- The files, and what they model:
-- - Types, Types/Encoded: types/rbactypes.go, and the JSON form of a binding.
-- - Http: of `net/http` the headers (Header, whose keys are canonical), the request and the writer.
-- - Utils: internal/utils. Config: internal/config/env.go. Helpers: helpers. Metrics: internal/metrics.
-- - Crudclient: internal/crudclient/crudclient.go, over a JSON client.
-- - Mongo: internal/mongoclient/mongoclient.go, over a driver; Mongo/Setup is NewMongoClient.
-- - CustomBuiltins: custom_builtins, over the terms of the engine.
-- - Openapi: openapi/openapi_utils.go: Adapt (adaptOASSpec and the conversion of x-permission), Load
--   (the loaders), PathVariables, Routes (createRoutesMap, PrepareOASRouter), FindPermission.
-- - Opatranslator: internal/opatranslator, from the queries of a partial evaluation to a filter.
-- - Core: core. PermissionsMap, Evaluators (Evaluators/Setup is SetupEvaluators), Input, PrintHook and
--   RegoModule are of opaevaluator.go; Middleware is of opamiddleware.go and Transport of
--   opa_transport.go. Context holds the values of a request's context, whichever package puts them.
-- - Service: service. Revoke and Standalone are of standalone_apis.go, Handler of handler.go, Status of
--   statusroutes.go, Router (setupRoutes) and Server (SetupRouter) of router.go. Server puts the parts
--   together for one request: the middlewares in their order, OPAMiddleware, the handler.
-- - Entrypoint: main.go, from the environment to a server.
-- - Tests: the theorems at concrete inputs, with concrete instances of the parameters.
-- The modules below one of these hold its theorems.
--
-- How Go is modelled: a function that can fail gives a Result, which is a value, an error or a panic
-- (a nil dereference); an error keeps the sentinel that it wraps. A pointer that may be nil is an
-- Option. A map is an association list, whose order stands for the order of an iteration. A request's
-- context is the record of the values that the program puts there. The writer of a response is passed
-- along. A call of a service changes a world, which is a type parameter. Numbers are naturals; no
-- arithmetic of the program comes near the bounds of its integers.
--
-- Parameters: what is not of this repository is an argument: the functions of samber/lo (Lo), bunrouter
-- (Bunrouter, whose registrations can panic), the JSON client (JsonClient), the driver of MongoDB
-- (MongoClient, Driver) and what MongoDB documents of its filters (Database, Queries), the engine of
-- policies (Opa, and Terms for the builtins), configlib (in Outside), gswagger (Swagger), encoding/json
-- (Marshal, Codec), the transport below (RoundTripper), the file system and the network (FileSystem,
-- Sources), sorting and joining paths (Paths). Their laws, where a proof needs some, are fields of the
-- record.
--
-- Fuel: Entrypoint asks for the specification as often as its first argument says, and is then still
-- fetching. The loop that fetches the specification until it succeeds runs on fuel, and `n + 1` rounds are
-- enough if attempt `n` succeeds. `itoa` runs on fuel greater than its number, which bounds its digits.
--
-- Not modelled: logging, clocks, the observation of metrics and the metrics page; the matching of
-- requests to routes, which is gorilla/mux's; the documentation routes, which are gswagger's; the
-- types of internal/types that no code uses; mocks and test helpers.
pub mod Prelude
pub mod Types
pub mod Http
pub mod Utils
pub mod Config
pub mod Helpers
pub mod Crudclient
pub mod Mongo
pub mod Openapi
pub mod Service
pub mod Opatranslator
pub mod Tests
pub mod Core
pub mod Metrics
pub mod CustomBuiltins
pub mod Entrypoint
