-- ===== src/Lib.antt =====
-- cqrs-ddd: the background jobs, the upcasting of events, the in-memory event store, the loading of
-- event-sourced aggregates, critical sections, the outbox, the mediator with its pipeline, the
-- projections, deferred commands, the merging of conflicts, the sagas and the specifications.
--
-- Jobs, packages/advanced/src/cqrs_ddd_advanced_core/background_jobs:
--   Jobs/Entity      entity.py and events.py: the job and its transitions. Lifecycle holds the table of
--                    transitions, Invariant the well-formed jobs.
--   Jobs/Repository  adapters/memory/background_jobs.py: the dictionary of jobs.
--   Jobs/Service     service.py: the calls load a job, change it and store it; the sweep of stale jobs.
--   Jobs/Admin       admin_service.py: statistics, bulk operations and `cancel_running`.
-- Upcasting, upcasting/registry.py of the same package: the upcasters of a type, sorted and applied in
--   one pass.
-- EventStore, packages/core/src/cqrs_ddd_core/adapters/memory/event_store.py and ports/event_store.py:
--   the list of stored events. Streaming describes a limited read, Batches the generator of
--   batches, Cursor the generator of single events.
-- Locking, packages/core/src/cqrs_ddd_core/cqrs/concurrency.py and primitives/locking.py:
--   `CriticalSection` over the interface `LockStrategy`. Atomic states its contract, Requests is
--   about the resources that a section locks.
--   Fifo is `_FIFOLock` of adapters/memory/locking.py in that package, with the runs of the calls
--   that share one lock; InMemory is `InMemoryLockStrategy` of the same file. Counted is the contract
--   that the outbox asks of a strategy, and Guard the middleware of middleware/concurrency.py, which
--   calls a handler inside a section.
-- EventSourcing, packages/advanced/src/cqrs_ddd_advanced_core:
--   EventSourcing            event_sourcing/loader.py: `EventSourcedLoader` over the event store, the
--                            snapshots and the upcasters.
--   EventSourcing/Snapshots  adapters/memory/snapshot_store.py, snapshots/strategy_registry.py and
--                            snapshots/strategy.py.
--   EventSourcing/Repository event_sourcing/repository.py: `EventSourcedRepository`. Reads is
--                            about what a load reads of what was persisted.
-- Outbox, packages/core/src/cqrs_ddd_core:
--   Outbox          ports/outbox.py and adapters/memory/outbox.py: the messages and their storage.
--   Outbox/Service  cqrs/outbox/service.py: `OutboxService`, which locks, publishes and marks them.
--                   Locks describes which messages can be locked, Refusals the failures.
-- Messaging, packages/core/src/cqrs_ddd_core:
--   Messaging/Mediator  cqrs/mediator.py with ports/unit_of_work.py and cqrs/event_dispatcher.py: the
--                       sending of a command in the scope of a unit of work. Inlined reads a command
--                       as one body, Transaction is about a root command.
--   Messaging/Pipeline  middleware/pipeline.py, middleware/registry.py and middleware/definition.py.
--   Messaging/Registry  cqrs/registry.py: `HandlerRegistry`, and what the mediator loads of it into its
--                       event dispatcher. Registry/Kept is about sequences of registrations.
--   Messaging/Validation  validation/result.py, validation/composite.py and
--                       middleware/validation.py: a composite validator is the list it runs.
-- Projections, packages/advanced/src/cqrs_ddd_advanced_core/projections:
--   Projections/Worker  worker.py: `ProjectionWorker` over the event store. Once is about one run,
--                       Opened about where it begins, Resumed about runs one after the other.
--   Projections/Schema  schema.py: the registered schemas and the order of their initialization. Ends
--                       is about its end, Order about schemas without a circle.
-- Scheduling, packages/advanced/src/cqrs_ddd_advanced_core/adapters/memory/scheduling.py and
--   scheduling/service.py: the deferred commands, and the sweep that sends those that are due.
-- Conflict, packages/advanced/src/cqrs_ddd_advanced_core/conflict/resolution.py:
--   Conflict/FieldLevel  `FieldLevelMergeStrategy` on a dictionary.
--   Conflict/Deep        `DeepMergeStrategy` on nested dictionaries and lists. Paths is about the value
--                        at the end of a path of keys.
-- Specifications, packages/specifications/src/cqrs_ddd_specifications:
--   Specifications          base.py, ast.py and operators.py: the trees, what they are written as,
--                           and the validation that raises.
--   Specifications/Build    ast.py: the construction and the validation that lists errors.
--   Specifications/Builder  builder.py: the fluent builder with its groups.
-- Sagas, packages/advanced/src/cqrs_ddd_advanced_core/sagas:
--   Sagas/State          state.py: `SagaState` and its records.
--   Sagas/Orchestration  orchestration.py: `Saga` with its handlers, lifecycle and compensations, and
--                        `MessageRegistry.hydrate_command` of the core package's
--                        cqrs/message_registry.py.
--   Sagas/Tcc            orchestration.py: Try-Confirm/Cancel.
--   Sagas/Builder        builder.py: the validation of what was declared, and the making of a saga of the class.
--   Sagas/Repository     adapters/memory/sagas.py: the dictionary of saga states.
--   Sagas/Manager        manager.py: `_process_saga`, which loads a saga, handles an event, stores the
--                        queued commands and sends them. Sends is about the sends alone, Delivery
--                        about the sends with the recovery.
--   Sagas/Registry       registry.py and manager.py: the registered classes, and the routing of an
--                        event to them.
--   Sagas/Recovery       manager.py: the sweeps over stalled, suspended and TCC sagas.
-- Common holds what they share: tests on numbers, lists, dictionaries, sorting and the outcome of a
-- call that may raise.
--
-- The manager works on the states that the repository finds, the saga object on one of these states,
-- and the service and the administration on the jobs of their repository. An entity is a record, a
-- repository an association list in the order of insertion, a method a function from the old object to
-- the new one. A job's method returns the new job or its exception; a saga's method may raise after it
-- has changed the saga, so it returns both. Identifiers, names of classes, payloads and texts that the
-- code only stores or compares are numbers; a text that a reason is made of is not empty. Timestamps
-- count from the epoch, and each reading of the clock is an argument.
--
-- A parsed dictionary is modelled by the values under the keys that the code reads; what stands under
-- `conditions` is a list, null or a value that is true, and what stands under `op` and `attr` is a text
-- that is not empty, or is counted as missing. The set-up of the loader is a record of what the class
-- of the aggregate does. The lock of Fifo carries, beside the state of the code, the calls that hold
-- it, that are about to go on and that have timed out; what a call does between two waits is one step.
--
-- A command carries what the pipeline around its handler does, as a tree: it returns a response with
-- its events, raises, writes, registers callbacks, and sends further commands, of which it sees what
-- they return or raise. An event carries its synchronous handlers. The handlers of an event do not wait
-- for anything outside, so each one runs to its end before the next; they are gathered, so all of them
-- run and the first exception is raised. The priorities of middlewares count from the lowest one. A
-- projection is what the handlers make of its data; a handler or a commit that raises leaves what was
-- committed.
--
-- Parameters: what `commit` of a unit of work raises; what the class or the factory of a middleware
-- makes; what the factory of handlers makes of a class; a function that identifies the items of lists; a lock strategy; a publisher, which takes an envelope or raises, given what it took
-- before; what the handler of a deferred command does with the scheduler, and whether it raises; a specification, which is the test that `is_satisfied_by` makes; the evaluation of an
-- operator; `cast_value`, which may raise; the class of an aggregate with its applicator and the hydration of events; a
-- handler of a saga, which is a function of the event and the saga; what `model_validate` makes of a
-- command's data; whether the command bus takes a command, given what it took before; the import of a
-- class that is not registered; the kill strategy of a job and what the rest of the system does to the
-- repository during `cancel_running`.
--
-- The generators `get_all_streaming` and `get_events_from_position` run on fuel, one more than the
-- number of stored events: each round but the last returns an event. The latter is modelled for a
-- limit of at least one. The inner function `visit` of the order of schemas runs on
-- fuel, one more than the number of names. `cancel_running` polls once per second of its grace period.
--
-- Not modelled: hooks, logging and tracing, which change no state; the identity that an in-memory
-- repository shares between its entries and the caller's object, except that a stored object has the
-- next version for both; the parameters of a single `on` call of the
-- saga builder; the workers, which are asyncio loops; the calls
-- of the in-memory strategy that wait while another one gives its lock back; what a
-- callback after a commit does; the default applicator, which finds methods by their names; the
-- operators of specifications in memory; the other merge strategies, undo, the orchestrator of event
-- persistence, the manager of
-- projections and their tables; the
-- persistence, infrastructure and feature packages.
pub mod Common
pub mod Conflict
pub mod Jobs
pub mod Sagas
pub mod Upcasting
pub mod EventStore
pub mod Locking
pub mod Specifications
pub mod EventSourcing
pub mod Outbox
pub mod Messaging
pub mod Projections
pub mod Scheduling
