-- ===== src/Lib.antt =====
-- Verification library of the order service (OrderFlow), a Go microservice that reads orders from
-- Kafka, validates them, saves them in PostgreSQL, caches them and serves them over HTTP.
--
-- The parts and their files, with paths from the repository's root:
--
--   Prelude (and Prelude/*): the shared names; Go's 64-bit int as ℤ with the wrap-around of an
--     increment, time.Time as nanoseconds since the zero time with the saturation of Sub,
--     map[string]V as an association list.
--   Strings: what the service uses of Go's strings, strconv and net packages, on ASCII text.
--   Floats: float64 as a parameter; each theorem that needs a law of it names the law.
--   Http: the calls that a handler makes on its http.ResponseWriter.
--   Errors, Errors/*: internal/errors/errors.go, and Go's error values.
--   Config, Config/*: internal/config/config.go and validator.go, with the Config of
--     internal/logger/logger.go. Load is Config/Load, the checks of validator.go stand in
--     Config/Validator and Config/Overall.
--   Breaker, Breaker/*: internal/circuitbreaker/breaker.go and middleware.go. Each critical
--     section of CircuitBreaker is a function; Execute is the two of them around the protected
--     function.
--   Model: internal/model/order.go.
--   Cache, Cache/*: internal/cache/cache.go. Get is two functions, one for each part that it runs
--     under a lock of its own.
--   Retry, Retry/*: internal/retry/retry.go. An operation is a function of the world; the delays
--     that are slept are returned.
--   RateLimit, RateLimit/*: internal/ratelimit/ratelimit.go (Window for FixedWindow, Bucket for
--     TokenBucket) and middleware.go.
--   OrderValidator, OrderValidator/*: internal/validator/validator.go over the validator package
--     as a parameter.
--   Dlq, Dlq/*: internal/dlq/dlq.go over the Kafka writer, its reads and the JSON encoding as
--     parameters.
--   Api, Api/*: internal/http/api.go over the cache; the repository, the JSON encodings and the
--     file server are parameters.
--   Database: the server as the service uses it, a parameter: commands on a state, and
--     transactions, which run on a state of their own that a commit installs.
--   Repository, Repository/*: internal/db/db.go. SaveOrder is its list of insertions in a
--     transaction; the queries are functions of the rows that they return.
--   Migrations, Migrations/*: internal/migrations/migrator.go over Database. MigrationTool/*:
--     migrations/migrate.go over the same server.
--   Consumer, Consumer/*: internal/kafka/consumer.go, with the message handler that
--     StartKafkaConsumer runs in it.
--   Lifecycle, Lifecycle/*: internal/lifecycle/lifecycle.go. A run of Start or Stop is a list of
--     events: a service's goroutine ends, the channel is closed, the caller receives.
--   Health, Health/*: internal/health/health.go.
--   Logger, Logger/*: internal/logger/logger.go.
--   Metrics, Metrics/*: internal/metrics/metrics.go.
--   Service, Service/*: cmd/service/initializer.go and the start of cmd/service/main.go, which
--     tie the configuration, the repository, the cache, the dead letter queue and the HTTP API
--     together.
--   Messages, Messages/*: cmd/service/message_handler.go, which ties the retry service, the
--     validator, the repository (a parameter), the cache and the dead letter queue together.
--     Messages/Stored and Consumer/Stored put Repository in the parameter's place, up to the
--     tables of the database.
--
-- How it models the program: a method that changes its receiver is a function that returns the
-- new record with the results; each reading of the clock is an argument, so a theorem holds for
-- any times (the one exception is lastAccess of a cache entry, which nothing reads: Get reads the
-- clock once more for it); a callback's calls and a handler's writes are returned as lists.
-- Concurrency is the set of all sequences of critical sections. Maps are lists whose order is the
-- order in which a range meets the entries, and which a step may rearrange. An error is a value
-- of GoError, and nil is none.
--
-- Bounds: durations are int64 nanoseconds, and theorems on counters say where they assume that a
-- counter is below 2^63 - 1. No function takes fuel: each recursion is on a list or on the
-- attempts that are left, and the loops that run until the process ends (ProcessDLQ, the waits)
-- are functions of the list of what they observe.
--
-- Not modelled: the writing of log entries, the signals and the shutdown of the service, static
-- files, PostgreSQL and the clients of the database, of Kafka and of Prometheus as such, JSON,
-- cmd/migrate/main.go (it does not compile), the data generators under scripts/ and the generated
-- mocks. The packages circuitbreaker, ratelimit, health, metrics and lifecycle are modelled
-- although the service does not use them.
pub mod Api
pub mod Breaker
pub mod Cache
pub mod Config
pub mod Consumer
pub mod Database
pub mod Dlq
pub mod Errors
pub mod Floats
pub mod Health
pub mod Http
pub mod Lifecycle
pub mod Logger
pub mod Messages
pub mod Metrics
pub mod MigrationTool
pub mod Migrations
pub mod Model
pub mod OrderValidator
pub mod Prelude
pub mod RateLimit
pub mod Repository
pub mod Retry
pub mod Samples
pub mod Service
pub mod Strings
