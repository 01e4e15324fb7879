-- ===== src/Lib.antt =====
-- A model of the notification service: an API that accepts notifications for registered destinations,
-- a publisher that moves outbox events to a broker, workers that deliver notifications over HTTP, and
-- a scheduler that retries, recovers lost deliveries and removes old tasks. The four roles share the
-- tables of PostgreSQL and nothing else but the broker's queue.
--
-- Parts, and the files that model them:
--   internal/notification: Notification/Model (model.go), Notification/State (ClassifyResult and
--   CanTransition of state.go), Notification/Retry (NextAttempt of retry.go, BoundedJitter.Apply of
--   jitter.go), Notification/Hash (RequestHash of hash.go), Query (query.go).
--   internal/store/postgres and migrations: Store/Tables (the two tables with their constraints, and
--   WithTx), Store/Intake (CreateOrGet), Store/Outbox (ClaimOutbox, MarkPublished), Store/Delivery
--   (ClaimDelivery, ApplyDeliveryResult, ScheduleRetry, ReplayDead), Store/Schedule (ScheduleDue,
--   DeleteTerminalBefore), Store/Query (the reads and ReplayDeadAtomic). A statement is a function on
--   the tables; the state is the two tables as lists of rows.
--   internal/intake: Intake (Service.Create). internal/outbox: Outbox (Service.RunOnce), Outbox/Loop
--   (Service.Run).
--   internal/delivery: Delivery/Service (Service.Handle), Delivery/Limiter (Limiter.Acquire),
--   Delivery/Exchange (DialContext, CheckRedirect and the exchanges of the HTTP client),
--   Delivery/Sender (HTTPSender.Send and parseRetryAfter), Delivery/Reading (sanitize and the numbers
--   of parseRetryAfter), Delivery/Worker (the service with the sender).
--   internal/retry and internal/retention: Scheduler (RunOnce of both), Scheduler/Loop (Service.Run of
--   internal/retry, and the loop of the retention).
--   internal/destination: Destination (the registry), Destination/Parse (Load and parseDestination),
--   Destination/Address (ValidateResolvedIPs). internal/config: Config.
--   internal/transport/httpapi: Http. internal/observability: Health (health.go), Observability
--   (metrics.go and logging.go).
--   internal/messaging/rabbitmq: Broker and Broker/Consumer (Consume, and the worker's loop in
--   internal/app/bootstrap.go), Broker/Client (Publish), Broker/Opening (Open and declare).
--   internal/app and cmd/notifier: App.
--   System is the service as a whole: a relation of steps on the tables and the broker's queue, one for
--   each statement of a role and each act of the broker. System/Safety has its invariant, System/Roles
--   and System/Workers the services as runs of its steps, System/Progress the way of a task to its
--   delivery.
--   Prelude holds what the modules share, with the laws of statements over tables; Text holds what
--   the sources use of package strings, and UTF-8; Examples holds runs on concrete tables.
--
-- How the parts interact: each service is a function over a record Repository of the operations that
-- it calls, and a module Postgres or Laws fills the record with the functions of Store. What a call
-- of the server comes to is an argument: it is answered, refused, or carried out with its answer lost.
-- So every theorem holds under every pattern of failures, unless it names the ones that it excludes.
-- Store/Invariant is what holds of the tables between two transactions: identifiers, keys and
-- generations are unique, each event belongs to a task, each task has an event for its generation,
-- and the columns of a task fit its status.
--
-- Numbers: counters are natural numbers; an instant is a number of nanoseconds since the year 1, and a
-- difference of instants is cut off at the bounds of 64 bits as in package time; sums of instants and
-- durations are exact. The tables keep a body and the times as they are given, where JSONB keeps the
-- value of a body and not its text, and TIMESTAMPTZ whole microseconds. Where a select of Go finds
-- several cases ready, its choice is an argument. All loops are recursions on lists, so no fuel is
-- needed: a polling loop recurs on the rounds that its ticker gives, and a call of a supplier on the
-- exchanges of the network.
--
-- Parameters, as code that is not here: JSON, SHA-256, YAML, the parsers of URLs, addresses and
-- durations, the order of texts and the row locks of the server, the clock, generated identifiers, the
-- random factor of the jitter, and the supplier.
--
-- Not modelled: the transport of net/http with its timeouts and proxies, the registry of the metrics,
-- the routes and constants of RunConfigured, newID, Close and Healthy of the broker's client, the
-- wrapper of the connection pool, and the tests. Two transactions run one after the other: the row
-- locks that let them do so are assumed of the server. A broker that loses a message which it has
-- confirmed, or a consumer that rejects one, is no step of System.
pub mod Prelude
pub mod Text
pub mod Notification
pub mod Store
pub mod System
pub mod Delivery
pub mod Outbox
pub mod Destination
pub mod Intake
pub mod Config
pub mod Query
pub mod Scheduler
pub mod Http
pub mod Health
pub mod Broker
pub mod App
pub mod Observability
pub mod Examples
