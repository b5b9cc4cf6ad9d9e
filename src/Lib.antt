-- ===== src/Lib.antt =====
-- Verification of vergo, a multi-tenant API server in Go: accounts and sessions, organizations and
-- their members, API keys, webhooks, rate limits and the audit log, over PostgreSQL.
--
-- How the parts interact. A request meets the rate limiter, then the middleware of its route
-- (internal/http/middleware: authentication, tenant, role), then a handler (internal/http/handlers),
-- which calls services (internal/domain, internal/auth) over the queries that sqlc generated
-- (internal/repo). A dispatcher sends the webhook deliveries that are due.
--
-- Which file models which part:
--   Prelude         numbers, integers, JSON values, texts, their parsing (strconv, strings) and lists
--                   that all modules share
--   Table           a table as a list of rows, and SQL's WHERE, ORDER BY, UPDATE and DELETE
--   Db              the world that the program's functions run in, and the type of an action
--                   (`Act E A` is a Go function that returns (A, error)); Db/Rows holds the rows of
--                   internal/repo/models.go
--   Process         cmd/api/main.go, internal/pkg/telemetry/otel.go and internal/pkg/db/db.go: the start
--                   and the end of the process, with what router.go and client.go open
--   Platform        what the libraries do: JWT, UUID, random bytes, hashes, bcrypt, HMAC, pq, Stripe,
--                   S3's presigned URLs, RFC 3339, and PostgreSQL's order of events of one instant
--   Config          internal/pkg/config/config.go
--   S3              internal/storage/s3/client.go
--   Repo            internal/repo/*.sql.go, a function per query, with the keys, unique constraints,
--                   foreign keys and cascades of db/migrations; Repo/Upkeep states what a
--                   property of the tables asks of the statements, and Repo/Trail the same for
--                   the users, the tokens and the audit log, whose rows no query deletes
--   Auth            internal/auth/jwt.go, store_pg.go and reset.go
--   Domain          internal/domain: users (over PostgreSQL and in memory), organizations, active
--                   organization, API keys, audit, projects, files, billing, webhooks and their
--                   dispatcher
--   RateLimit       internal/pkg/ratelimit/limiter.go
--   Http            Gin (requests, contexts and responses), Middleware, Handlers and Router, for
--                   internal/http; Engine and Health, for the middleware and the routes of
--                   cmd/api/main.go; Http/Middleware/Logging also for internal/pkg/logging/logging.go;
--                   Http/Tenancy follows a request of one tenant through all of it, and Http/Upkeep a
--                   property of the tables from the statements to the routes; Http/Runs is the
--                   running server, as a sequence of requests and passes of the dispatcher
--   Tests           concrete inputs, and runs of the model
--
-- The model. A statement that the driver fails is an element of `World.faults`, so a theorem about
-- every world covers every schedule of failures; a theorem that needs the statements answered says
-- so. Within one call `time.Now()` and SQL's `now()` are one instant; between calls it is any
-- instant. A failed statement changes no table. A transaction that fails restores the tables. The
-- answers of webhook receivers are a sequence that the environment gives. Goroutines that the
-- handlers start run at once. A function that goes on after an error that it drops is written with
-- `ignore` or `attempt`. There is no fuel: each loop runs over a list.
--
-- The rate limiter counts in units of 10^-9 tokens, where the source has a float64, so rounding is
-- not modelled, and the map of its buckets is a function.
--
-- The order of two audit events of one instant is any order, another one for each limit and offset; rows
-- of other queries that their ORDER BY does not part keep the order of the table. The payload of a
-- delivery is the text that was given, where JSONB would normalise it. The migrations of API keys,
-- webhooks and subscriptions name a table orgs that none creates; the model reads organizations.
--
-- An identifier, a token or a salt is the value of a draw that has a number; the draws of a call of
-- the users in memory are given to it, so that both services of users draw the same. An object that
-- S3 is asked to delete is recorded; S3 itself is not modelled. An instant is a number of
-- nanoseconds from the epoch on, and one before it is the epoch.
--
-- Requests are taken one after the other. Http/Handlers/Auth/Race is the exception: there, two
-- refreshes overlap, each with its check and its rotation as one step.
--
-- The process is read through the calls that it makes of the libraries, in their order; what each
-- answers is a function that the environment gives, so a theorem about every such function covers
-- every combination of failures. Its goroutines are recorded where they start.
--
-- Not modelled: the construction of the services, which only passes settings on;
-- the headers of responses but the rate limiter's, latencies and stacks in the log, timeouts of
-- servers and connections; other interleavings of requests; docs/swagger, which is generated, and
-- internal/http/handlers/responses.go, which only it reads; internal/pkg/testutil.
pub mod Prelude
pub mod Table
pub mod Db
pub mod Platform
pub mod Process
pub mod Repo
pub mod RateLimit
pub mod S3
pub mod Config
pub mod Auth
pub mod Domain
pub mod Http
pub mod Tests
