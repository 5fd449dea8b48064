-- ===== src/Lib.antt =====
-- Verification of mini-sidekiq, a background job processor on Redis or Postgres.
--
-- A client makes a job and enqueues it (pkg/client/client.go, job.go). The Redis broker
-- (internal/broker/redis.go) keeps each job's record under a key of its own, and its id at one
-- place: the list of its queue, the sorted sets of scheduled, running and waiting-to-retry jobs, or
-- the dead-letter list. The Postgres broker (internal/broker/postgres.go) keeps each job as one row
-- of a table. The dispatcher (internal/dispatcher) takes jobs out of the queues by a
-- weighted schedule and hands them to the worker pool (internal/worker), which runs the handler
-- inside its middlewares (internal/middleware) and then acknowledges the job, requeues it with a
-- delay (internal/retry) or buries it. The scheduler (internal/scheduler) moves due jobs back into
-- the queues. pkg/client/server.go puts the four together.
--
-- The files:
--   Prelude and its children: library names, Boolean tests, lists, sums, integers.
--   Job: job.go. `new_job` is NewJob.
--   Exec: errors, and methods that change a state and may fail.
--   Redis: the commands of the Redis server as an interface, whose laws are the documented effects
--     (Redis/Values). Redis/Memory is a server that meets it; Redis/Occurrences and Redis/Ends are
--     lemmas. A score is a natural number.
--   Broker/Codec: encoding/json on jobs as an interface. Broker/Network: one round trip, which may
--     lose the request or the reply, and a pipeline of commands, which may be cut short.
--   Broker/Keys, Broker/Scripts, Broker/RedisBroker: the keys, the Lua scripts and the methods of
--     internal/broker/redis.go, under the names of the source. A script is one request, and so is
--     each command of a pipeline; a method is a sequence of requests.
--   Broker/Shapes, Broker/Commands, Broker/Apart, Broker/Tracking and children: where each job stands
--     (`Placement`), the invariant that a store agrees with a placement (`Tracks`), and that every
--     request keeps it. Broker/Lifecycle and its child: all interleavings of requests.
--   Broker/RedisBroker/Atomic, Ending, Dequeue, Promote: the methods under any network faults; Calm:
--     without faults; Line and Fifo: one queue without faults.
--   Broker/Listing and children: GetJobsByStatus; Broker/Counting and children: GetQueueStats. SCAN
--     is a parameter.
--   Broker/Interface: internal/broker/broker.go, and the Redis broker as its implementation; the
--     Postgres broker is one in Broker/PostgresBroker. Broker/Stats: QueueStats.
--   Broker/Postgres/Table, Statements, Server: the schema and the SQL statements of
--     internal/broker/postgres.go, each of them a function on the list of rows, and what the broker
--     relies on of the server. Rows, Updates, Due: lemmas on them.
--   Broker/PostgresBroker: the methods of internal/broker/postgres.go, under the names of the
--     source. Its children: how a method of one statement ends (Outcome), Enqueue, Dequeue and
--     Exclusive, the UPDATEs (Settling), RetryDeadJob (Reviving), GetJob and DeleteJob (RoundTrip),
--     GetJobsByStatus (Page), GetQueueStats (Counts, Depth).
--   Worker/Middleware, Worker/Chain: internal/middleware. Worker/Retry: internal/retry.
--   Worker/Pool: internal/worker/registry.go and the run of a job in internal/worker/pool.go.
--     Worker/Settling, Worker/Quiet: the pool over the Redis broker; Worker/Changing and
--     Worker/Recording: over Postgres. Worker/Attempts: a job that always fails, over a broker that
--     records the calls.
--     Worker/Channel: Submit, Start, Stop and runWorker as a step relation.
--   Dispatcher, Dispatcher/Polling: internal/dispatcher. Scheduler, Scheduler/Promoting:
--     internal/scheduler. Client, Client/Enqueuing, Client/Wiring: pkg/client. Client/Running:
--     Server.Run as a step relation of its goroutines, with the positions of Dispatcher.Run in its
--     loop; Client/Ending: how it ends.
--   System and its children: clients, dispatcher, pool and scheduler together, over the Redis
--     broker: the jobs that the process holds (Holding, Keeping, Custody), and the way of one job
--     (Delivery).
--   Dashboard, Dashboard/Replies: the handlers of internal/dashboard/handlers.go, and ServeHTTP.
--     Dashboard/Routes, Dashboard/Routes/Table: the patterns of internal/dashboard/server.go and how
--     a ServeMux chooses among them. Dashboard/Reading and Broker/Reading: requests that only read.
--   Config, Config/Loading: config/config.go. Config/Settings: what it relies on of viper, as an
--     interface; what viper makes of the key queues, which is a map, is a parameter.
--   Commands and its children: cmd/server, cmd/enqueue (Copying) and cmd/dashboard.
--   Tests and its children: concrete inputs.
--
-- The model: times are nanoseconds since 1970 and never negative; counters are natural numbers,
-- far below 2 ^ 63; the delay of NextDelay keeps its 64 bits. Clocks, random draws, UUIDs and the
-- results of json.Marshal are arguments. A mutex makes its method one step. The loops of the
-- dispatcher and the scheduler run over a list of what they meet, of any length; the replay of a
-- failing job runs over fuel, and `replay-attempts` says how much is enough. A handler may change
-- the job, the process and its own state, and may panic. A bookkeeping call whose context times out
-- is one that the network fails.
--
-- On Postgres a statement is one transaction, and one round trip. The time that NOW() reads and the
-- rows that other transactions have locked are part of the database's state. What a jsonb column
-- gives back, how precise a timestamptz is and in which order ORDER BY leaves equals are parameters;
-- the range of an INT column is not modelled, nor are the indexes that only make queries fast. Each
-- lookup by a primary key reads the first row with it, which is the only one where the table keeps
-- its constraints.
--
-- The requests of Broker/Lifecycle are those of all clients in any order, with three conditions on
-- what the clients do: an id is enqueued while it stands nowhere, a worker settles a job that is
-- running, and a record is deleted while its id stands nowhere. DeleteJob does not see to the last
-- one when a promotion of the same job comes between its commands; Tests/Broker shows what happens.
--
-- A request's path is the list of what stands between its slashes; paths that the ServeMux redirects,
-- because they have an empty segment or dots inside, are left out. Concurrency and the durations of
-- a configuration are not negative. The number of rounds of cmd/enqueue is that of -count.
--
-- Not modelled: opening and closing the connections; the parsing of flags, signals, the start and the
-- shutdown of the HTTP server, and the logs of the commands, which only call libraries; the JSON
-- encoding of replies.
pub mod Prelude
pub mod Job
pub mod Exec
pub mod Redis
pub mod Broker
pub mod System
pub mod Worker
pub mod Dispatcher
pub mod Scheduler
pub mod Client
pub mod Config
pub mod Commands
pub mod Dashboard
pub mod Tests
