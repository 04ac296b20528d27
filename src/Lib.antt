-- ===== src/Lib.antt =====
-- A verification library for the event sourcing package: an append-only event store with optimistic
-- concurrency, the iterators that read it, the registry through which events are encoded, and the
-- command handler that loads, folds, decides and saves, and the bus that dispatches to it; the
-- store of projections, with the claims on their segments, the batches that a segment applies and
-- the quotas of instances; and the store of automations' leases.
--
-- The parts, and the files that model them:
-- - Shared: Go's slices as lists, its maps as association lists (Shared/Dict), `==` on strings and
--   integers (Shared/Keys), Boolean tests (Shared/Tests) and the lemmas on them (Shared/Lists).
-- - Result, Errors (errors.go), Revision (revision.go), Envelope (event.go, eventstore.go): the data
--   that the parts exchange. An error is a constructor without its text.
-- - Registry (event_registry.go, event_encoding.go): the two package maps as a record, each function
--   by its name in the source. Registry/Laws has their agreement, Registry/Encoding the round trips,
--   and fills the interface `Codec` of Envelope, which every store takes.
-- - Iter (iter.go): `NewIteratorFunc`, `Next`, `Err`, `Close`, `Wrap`, `All` as functions on a record
--   of the iterator's fields, over the state of its closures. Iter/Laws, Iter/Slice, Iter/Drain and
--   Iter/Wrapped have what clients rely on.
-- - Memory/EventStore (memory/eventstore.go): the store's fields as a record and its methods as
--   functions from store to store. Its children are the invariant (Invariant), the append loop
--   (Append), what records decode to (Encoded), the cases of a save (Save), the contract of a save
--   (Contract), the iterators (Reading) and the pages of the log (Paging).
-- - Projection (projection/store.go) and Memory/ProjectionStore (memory/projection_store.go): the
--   checkpoints, claims and resets of projections as functions from store to store. Its children
--   DeadLetters, Replays and Instances have dead letters, replay requests and heartbeats; Rows, Kept,
--   Claims and Resets have what the operations keep. The callbacks of Commit and Reset are functions
--   of the store, since other clients' steps run while they do.
-- - Projection/Segment (projection/segment.go, with the data of projection.go and runner.go and
--   `setStatus` of status.go): how the loop of a claimed segment applies a batch, as functions on
--   what the loop keeps of its segment, over `UnitStore`, the contract of a store's units of work in
--   projection/store.go. Its children are what the loop owes to each event (Delivery), one event's
--   units of work (Events), the batch (Batches), and `loadParked` after it (Parking).
-- - Projection/Quotas (projection/instances.go): `heartbeat`, `quota`, `reserve`, `unreserve` and
--   `shouldShed` on the fields of `Runner` that they read. Its children are the sum of the quotas
--   (Shares), reservations (Reserving) and shedding (Shedding).
-- - CommandHandler (command_handler.go): one attempt of the handler, and the retries around it.
--   CommandHandler/Log is the interface of a store with its contract, CommandHandler/MemoryLog shows
--   that the memory store fills it, CommandHandler/Folding follows the handler's variables and
--   CommandHandler/Decided what a call has done when it returns.
-- - Automation (automation/store.go, automation.go) and Memory/AutomationStore
--   (memory/automation_store.go): the leases of an automation's keys as functions from store to store.
--   Its children are the candidates of Acquire (Candidates), their rounds and turns (Rounds), the order
--   in which it goes through them (Turns), what it grants (Grants), and what a grant takes from the
--   lease before it (Leases).
-- - Automation/Items (automation/scheduler.go, automation/automation.go): items, outcomes and counts.
--   Automation/Runs (automation/automation.go): `runBatch`, one function for each thing that one of its
--   goroutines does between two points where another may run. Its children are the cases of a move
--   (Moves), what is in work (Exclusive), the order of the starts (Ordered), what a failure or a
--   deferral holds back (Parked), what the marks of a batch come from (Settled), and its end (Ends,
--   Live, Finished).
-- - CommandBus (command_bus.go, with `Use` of middleware.go): the fields of the bus with its
--   workers and the calls of Dispatch, and one function for each thing a goroutine does between two
--   points where another may run; `run` is any interleaving of them. Its children are what an update
--   of a caller changes (Callers), the wait groups (Counted, Counting), where a waiting command is
--   (Shards, Waiting, Served), what is enqueued (Sent), the order within a shard (Order) and the
--   calls that the closed bus refuses (Onward, Moves, Refused).
-- - Tests: the theorems applied at concrete inputs.
--
-- How they interact: the handler calls the store through `EventLog` and passes it envelopes; the
-- store encodes them through `Codec`, and hands out iterators of Iter, whose closure decodes. Each
-- operation of the store holds its lock throughout, so operations of several clients interleave as
-- whole steps: `others` in CommandHandler is what other clients do before each call of the handler.
--
-- Bounds and fuel: numbers are natural numbers, but for the number of shards that a bus is made
-- with, a ℤ: the version of an instance, an int, is one that is not negative. A position or version
-- is the length of a slice in memory and does not wrap at 2^64; the version that the handler
-- writes, which the store overwrites, keeps its wrap-around. `All` runs on fuel, and more fuel than
-- items is enough; the decimal digits of a version have n + 1 steps, which are more than its
-- digits. The retries of `backoff.RetryWithData` are the relation `Ran`, of any length.
--
-- What is assumed of a projection: its store is `UnitStore`, which rolls back every commit that
-- fails, as projection/store.go documents it; memory.ProjectionStore cannot do so by its own
-- documentation, and is modelled apart from it. Its handler may do differently with an event in its
-- batch and with the event alone, and is otherwise a function of the event, the replay bound and
-- the read model.
--
-- Not modelled: `reflect`, `encoding/json`, `hash/fnv`, `uuid`, the clock, contexts and `backoff`
-- are parameters, with what the code relies on as named laws. Left out are the locks themselves,
-- panics of closures, error texts, and the parts that other components keep: the loops around the
-- batches of a projection (projection/runner.go, the rest of projection/segment.go, replay.go,
-- probe.go), the runner and schedulers of automations (automation), the query bus (query_bus.go),
-- event handlers and the rest of the middleware (event_handler.go, middleware.go), the SQL and
-- KurrentDB stores (sqlite, postgres, kurrentdb), which send statements to a database, and
-- telemetry, logging and the dashboard, which observe calls.
pub mod Automation
pub mod CommandBus
pub mod CommandHandler
pub mod Envelope
pub mod Errors
pub mod Iter
pub mod Memory
pub mod Projection
pub mod Registry
pub mod Result
pub mod Revision
pub mod Shared
pub mod Tests
