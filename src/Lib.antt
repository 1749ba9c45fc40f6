-- ===== src/Lib.antt =====
-- Verification of finsplitter, a Go service that keeps card brands in PostgreSQL and users in Logto, an
-- identity provider. A request passes the authentication middleware, a handler and a use case; the
-- use case reaches the database through repositories and Logto through a client.
--
-- How the code is modelled. A call is a function from the state of the outside world to a result and
-- the next state (Effects): it returns a value or an error, or panics. The outside world `W` is a
-- parameter, and so are the packages that touch it: pgx with PostgreSQL (Postgres/Driver), resty
-- with the Logto server and the clock (Logto/Http), go-redis (Cache), jwx (Auth/Keys) and the tables
-- of unicode (Strings). What a theorem needs of them is a named hypothesis. Tests holds concrete
-- instances. Log lines, spans and contexts' deadlines are left out.
--
-- The files and the code that they are about:
-- - Base, Strings, Effects: lists, texts, numbers and running calls; strings.TrimSpace, HasPrefix,
--   TrimPrefix, TrimRight and Map are written out.
-- - Traces: sequences of requests to a shared state, and those of one client among those of others.
-- - Errs: internal/domain/errs, internal/gateways/logto/errors.go, internal/config/errors.go and the
--   ways to wrap an error; errors.Is and errors.As.
-- - Domain: internal/domain, with the values that internal/domain, pkg/logctx and the middleware
--   store in a context.
-- - Ports: internal/app/ports and the other interfaces of the use cases.
-- - Postgres: internal/gateways/postgres. Tx is tx.go (WithTx), Sqlc the generated queries, CardBrand
--   and User the repositories, Migrations and Pool the set-up. IsTransactional is what the theorems on
--   failed requests ask of the database: only Commit changes the data that others see. Table and
--   UserTable say what PostgreSQL documents of the statements on the two tables, with the unique
--   indexes and the foreign key of the migrations, for a server that is up; Table and
--   UserTable/Shared do so for a table that other clients change meanwhile, UserTable for requests
--   one after the other.
-- - CardBrands: internal/app/usecases/card-brand and internal/gateways/http/v1/card-brand, composed
--   as newCardBrandAPI in cmd/api/main.go does. Handlers/Stored is on successes, Handlers/Atomic and
--   Handlers/Statuses on failures, Handlers/Pages on listing. Routes has the requests with what their
--   routes declare. Spec is the specification of the API, a step relation on the rows of the table
--   in which no transaction, statement or error value occurs; Refinement relates the code to it: a
--   request takes effect at one time.
-- - HttpClient: pkg/httpclient, and NewClient of internal/gateways/logto/m2m_client.go. An option is a
--   constructor, and resty is a set of setters; Effects says what each setter and each option writes.
-- - Logto: internal/gateways/logto. Client is m2m_client.go with its cached token, where an argument
--   `waits` stands for what other goroutines do while a call waits for the lock; DeviceFlow is
--   device_flow.go.
-- - Accounts: registration, GET /auth/me and profile setup (internal/app/usecases/auth and profile,
--   and their handlers). Spec is the specification of these three requests, a step relation on the
--   rows of the table of users that leaves open what Logto answers; Refinement relates the code to it,
--   for any Logto client whose calls return, and Refinement/Client makes one of m2m_client.go, over
--   HTTP requests that return. Here too other clients may change the table meanwhile.
-- - Device: the use cases and handlers of the device flow.
-- - Cache: pkg/cache. Auth: internal/gateways/http/v1/auth/middleware.go; Verified says which tokens
--   are accepted, Frame what checking a token leaves alone.
-- - Api: internal/gateways/http/v1/api.go, health.go and the routes.go of the parts, and
--   internal/gateways/http/request_id.go: the middleware in front of all handlers. Router is
--   internal/gateways/http/global_router.go. Stack follows a request from the middleware to the table,
--   Router/CardBrands from the router on; Wiring is what cmd/api/main.go connects,
--   Startup what it does before that, and Lifecycle its start and stop hooks.
-- - Config: internal/config. Telemetry: pkg/telemetry, with the providers and the logger's handlers,
--   and initializeOpenTelemetry of cmd/api/main.go.
--
-- Numbers: uint32 products wrap as in the code (`% 2 ^ 32`), and durations are int64 nanoseconds.
-- No definition takes fuel: every loop of the code runs over a list or a text.
--
-- Not modelled: the framework that decodes requests and matches paths, the constant document in
-- api/openapi.go, the two calls of OpenTelemetry in pkg/telemetry/tracing/context.go, the command line
-- and the settings of the server in cmd/api/main.go, generated mocks and test utilities. Requests that
-- run at the same time are modelled at the handlers, for the card brands and for the accounts; from
-- the router and the middleware on, the model follows one request at a time.
pub mod Base
pub mod Effects
pub mod Strings
pub mod Errs
pub mod Domain
pub mod Ports
pub mod Postgres
pub mod Http
pub mod Config
pub mod Telemetry
pub mod Traces
pub mod CardBrands
pub mod HttpClient
pub mod Logto
pub mod Cache
pub mod Accounts
pub mod Auth
pub mod Device
pub mod Api
pub mod Tests
