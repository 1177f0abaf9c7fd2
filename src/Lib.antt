-- ===== src/Lib.antt =====
-- slay-push is a push notification service: a client creates a notification, a worker fans it out to
-- the devices of its audience, and another worker sends one push to each through the device's
-- provider. This library models that pipeline over the database, the task queue and the providers,
-- and proves what makes it correct.
--
-- The parts and their files (paths are from the repository's root):
--   Base            numbers, tests, lists, texts, signed 64-bit integers, and encoding/json's values
--   Errors          Go's error values, errors.Is and errors.As on those that the program tests
--   Queue           internal/queue/queue.go: payloads, tasks and retry hooks; Queue/Enqueue is
--                   EnqueueFanout and EnqueueSend
--   Provider        internal/provider/provider.go: results of a send; Provider/Registry is Register,
--                   Get and Known; Provider/Http is what the HTTP adapters share; Provider/Expo is
--                   internal/provider/expo/expo.go, Provider/Fcm internal/provider/fcm/fcm.go,
--                   Provider/Hms internal/provider/hms/hms.go, Provider/Apns
--                   internal/provider/apns/apns.go; Provider/Cache is the map of the last two
--   Crypto          internal/crypto/crypto.go: LoadMasterKey, Seal and Open
--   Store           internal/store/postgres: the rows (models.go) and the world; its children are
--                   the statements (Notifications, Recipients, Devices, Credentials, Upserts,
--                   Tenants, Counts, Listings, ApiKeys, Users, Sessions), Transaction, the monad
--                   of fallible calls (Monad), and what statements do in general (Fates, Moves,
--                   Effects, WellFormed, Untouched)
--   Targeting       internal/targeting/targeting.go
--   Dispatch        internal/dispatch: Create is notifications.go, Fanout is fanout_handler.go, Send is
--                   send_handler.go, Limiter is outbound_limiter.go, Asynq is
--                   asynq_adapter.go, and Dispatch itself handlers.go;
--                   History runs any sequence of handler calls, and Reaches follows a request
--                   through its fanout to the end of its sends
--   Apikey          internal/apikey: scopes, keys and hashes; Apikey/Limiter is ratelimit.go
--   Api             internal/transport/http: Auth is middleware.go, Create and Status are
--                   notifications.go, Devices is devices.go, Router is server.go
--   Platform        internal/platform/seq_writer.go, the log writer; Platform/Log is the log that it
--                   stands for; Platform/Health is health.go and the start of the pool in db.go
--   Config          internal/config/config.go
--   Auth            internal/auth: session tokens and passwords; Auth/RoundTrip says what they ask
--                   of fmt, base64 and argon2
--   Dashboard       internal/dashboard: middleware.go, auth_handlers.go, setup_handlers.go; Keys is
--                   apikeys.go, Projects the list of projects.go, Views what the pages show, Tabs the
--                   pages of a project, Providers the forms of credentials, Notifications the pages
--                   of notifications, Router is server.go
--   Server          cmd/server/main.go: Start is main and the start of its processes, Commands its
--                   commands on a deployment, Wiring its queues and handlers; Loadtest is loadtest.go
--   Examples        a small world, and the theorems at work on it
--
-- How the code corresponds. A handler is a function from the world to a result and a world. The world
-- holds the tables, newest row first, the tasks that asynq has taken, the pushes made, and an
-- environment for what lies outside the program. Each contact with the outside (a statement, an
-- enqueue, a push, the limiter) advances a tick, and the environment says what becomes of the
-- contact at that tick: a statement runs, is refused, or runs and its reply is lost; asynq accepts a
-- task, reports a conflict of its id, refuses it, or takes it and loses the reply; an adapter, the
-- limiter, the clock and gen_random_uuid() give any answer. Only the registration of a
-- device that names a user and a device_uuid runs in a transaction, in the code as in the model; what
-- any other failed handler has done stays done. Handlers run one after
-- the other here; a statement is atomic, but no interleaving of two handlers is modelled.
--
-- UUIDs and times are natural numbers, statuses are data types with the values of the schema's CHECK
-- constraints, jsonb and encoding/json are parameters on texts, int32(n) and durations keep their
-- wrap-around, an int32 as its bit pattern, and int columns their largest value. Of SQL the model has the unique indexes, the
-- primary keys and the foreign keys of notifications and recipients. The JSON of a task's payload
-- cannot fail to encode (its data was decoded from JSON), so a task carries its payload as a value.
--
-- Bounds and fuel: the loops go over the devices of a fanout, the ids or the fields of a request, the
-- characters of a text and the events of the log writer, all by structural recursion, and every
-- handler is a total function. Only the load test's wait for a notification polls until a deadline:
-- it takes fuel, one for each poll, and stops before the fuel is used where the clock moves on.
--
-- An API handler is a function of the same kind whose result is the reply. Its body has been decoded
-- (or not: both errors of decodeJSON are there), and chi has matched its route.
--
-- The Seq writer has its own state, a batch and the requests that it has made; an append and the
-- flush that it asks for are one step. The dashboard's handlers answer with a page and a cookie.
--
-- Not modelled: the templates that print the pages (a page is a value with what its template is
-- given); the logger's set-up, asynq's logger and the serving and the shutdown of the processes, which
-- only call libraries; the parsing of flags; the phases of the load test and what it prints. The seconds of a
-- Duration, which Go computes in float64, and the tokens that golang.org/x/oauth2 keeps in a source are
-- parameters.
pub mod Base
pub mod Errors
pub mod Provider
pub mod Queue
pub mod Crypto
pub mod Store
pub mod Targeting
pub mod Dispatch
pub mod Apikey
pub mod Api
pub mod Platform
pub mod Config
pub mod Auth
pub mod Dashboard
pub mod Server
pub mod Examples
