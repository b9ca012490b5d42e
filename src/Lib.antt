-- ===== src/Lib.antt =====
-- NexusBench runs contestants' order matching engines against a fleet of bots, checks their fills
-- against a reference orderbook and ranks them in contests. This library models the parts that decide
-- what a contestant's result is and what becomes of a submission.
--
-- The parts, and the files of the repository that they model:
--   Orderbook (internal/correctness/orderbook.go): the golden orderbook, `Apply` and its three kinds of
--     order. `match_loop` is the matching loop, which the source writes out four times.
--   Checker (internal/correctness/checker.go): `Check`, as `count_fills` with the score around it.
--   Models (internal/models/models.go): the records that the parts share.
--   Contest (internal/contest): Contest/Store is the memory store, Contest/Defaults the profiles,
--     Contest/Service the service; Contest/Race runs two `Activate` calls in steps of store calls.
--   Registry (internal/orchestrator/registry.go): worker liveness.
--   Stats, Fleet (internal/botfleet): latency and throughput, orders and configurations.
--   Queue (internal/queue/job.go, memory.go): jobs, and the channel queue.
--   Executor (internal/worker/executor.go): `Execute`; Executor/Replay replays the fleet's orders through
--     Orderbook and compares by Checker, Executor/Scores computes scores, Executor/Gate is the
--     pre-flight gate, Executor/Execute the rest.
--   Worker (internal/worker/worker.go): `processJob` around `Execute`, in the phases between which
--     another worker may run.
--   Submission (internal/submission/service.go): `Ingest`, whose guard is `check_contest`, StopContainer.
--   Bus (internal/api/bus.go): the leaderboard's subscribers.
--   Leaderboard, Api (internal/api/router.go): `BuildDedupedLeaderboard`; the validation endpoint with its
--     rate limiter (Api/Spaced one request at a time, Api/Race two at once), the team history, the admin
--     key and the codes of contest errors.
--   Closing (cmd/server/main.go, internal/api/router.go): `tickAutoClose` and `closeContest`; Closing/Due is
--     when a tick closes, Closing/Archived what it archives, Closing/Ends the loop over the ticks.
--   Sandbox (internal/sandbox/docker.go): the port pool under `Deploy` and `Stop`.
--   Validator (internal/validator): Validator/Scenarios is the fixed list, Validator/Compare the comparison
--     of a fill, Validator/Run the sequential and the concurrent run and `Run`, against a given engine.
--   WebSocket (internal/botfleet/websocket.go): frames; WebSocket/Exchange is `readDataFrame` and `Send` over
--     a connection of bytes.
--   Generator (internal/botfleet/generator.go): the random order generator, with its random numbers given
--     and the panic of `Int63n` modelled.
--   Consumer (internal/consumer/consumer.go, percentile.go, store.go): the latency windows, the record loop and
--     the table, which keeps one row for a key; Consumer/Table and
--     Consumer/Ordered are about the table and about records in order.
--   Base: numbers, lists, maps, sorting; Examples: tests, and each theorem at a concrete input.
--
-- State is passed explicitly: an operation takes the state and returns the new one with its result.
-- A Go map is an association list, a mutex that covers a whole method makes the method one step.
-- Clocks, new UUIDs, and the answers of Docker, the network, the validator and the queue are
-- arguments. float64 is a record of operations of which nothing is assumed (Base/Float), text
-- formatting likewise (Base/Text), but where a theorem names what it needs of `%s-%d` or of a text, and
-- `sort.Slice` is any function that keeps its documented promise (IsSortSlice), except where equal elements cannot be told apart. `range` over a map is any function
-- that lists the map's entries, in any order. An engine that is validated is a record of a state and a
-- `send` (Validator.Run.Engine); the goroutines of the concurrent burst take effect one after the other,
-- in an order that the engine gives. Counters that only count elements
-- of a list are natural numbers; the book's uint64 sequence number wraps. Every loop is
-- structural recursion, except `readDataFrame`, which runs on fuel: each round reads a frame of at least
-- two bytes, so one more than the bytes that are left is enough (WebSocket/Exchange/Ends).
--
-- Not modelled: HTTP, Kafka, the Docker engine, SQL and Prometheus code, the opening handshake of a WebSocket, the
-- bots' goroutines, the routes and the middleware, the files of the submission store and its local
-- deployment, the telemetry emitter, configuration and the rest of the
-- commands.
pub mod Base
pub mod Orderbook
pub mod Checker
pub mod Models
pub mod Contest
pub mod Registry
pub mod Fleet
pub mod Queue
pub mod Stats
pub mod Executor
pub mod Worker
pub mod Submission
pub mod Bus
pub mod Generator
pub mod Consumer
pub mod Leaderboard
pub mod Api
pub mod Validator
pub mod WebSocket
pub mod Examples
pub mod Closing
pub mod Sandbox
