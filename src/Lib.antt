-- ===== src/Lib.antt =====
-- Verification of MoonFlow (moonflow/), a durable workflow engine written in MoonBit.
--
-- MoonFlow. A workflow is a list of steps. The engine runs them in order, stores an event for
-- everything that happens, and after a crash goes on from the stored events.
--   Flow/Async      core_scheduler.mbt: a computation that is done or suspended (`Async`, `run`, `bind`).
--   Flow/Types      types_errors.mbt, types_workflow_id.mbt, core_step.mbt, core_workflow.mbt: the data.
--   Flow/Builder    core_workflow.mbt: `workflow`, `then` (here `next`), `parallel`, ..., `build`.
--   Flow/Event, Log state_event_log.mbt: the events and the append-only log.
--   Flow/Replay     state_replay.mbt: the state of a run out of its events.
--   Flow/Snapshot   state_snapshot.mbt: snapshots and their JSON; RoundTrip has what the JSON keeps.
--   Flow/Storage    state_storage.mbt, runtime_memory_storage.mbt, runtime_file_storage.mbt: the trait as
--                   a record of operations with its laws, and the two back ends that have them.
--   Flow/Metrics    monitor_metrics.mbt: the counters.
--   Flow/Errors     the texts of the errors (core_engine.mbt).
--   Flow/Engine     core_engine.mbt, core_timeout.mbt: the engine (Step: one step with its timeout and
--                   retries; Node: the kinds of steps; Workflow: the loop, `start` and `resume_workflow`).
--                   Under it Journal, Runs, Ends, Status, Retries, Recovery and Total hold the proofs.
--                   Batch has `execute_batch`, Timeout has `start_with_timeout` of core_timeout.mbt.
--   Flow/Saga       core_saga.mbt: building and running a saga and compensating it; Rollback has its proofs,
--                   Retry those of a saga whose steps are repeated.
--   Flow/Clock      utils_time.mbt, runtime_context.mbt: readings of the clock.
--   Flow/Category   types_error_category.mbt, core_policy.mbt, core_priority.mbt: which errors are
--                   retried, delays and priorities; Backoff has the delays of an exponential backoff.
--   Flow/Middleware core_middleware.mbt: wrapped handlers. Attempts is about retries and logging;
--                   Breaker is the circuit breaker, History a description of it by the calls so far;
--                   Writes and Refines have the proofs.
--   Flow/Patterns   pattern_lib.mbt: Circuit, Bulkhead and Retrying have the proofs about each.
--   Flow/Validator  core_validator.mbt; Sound has its proofs, Runs what it means for the engine.
--   Flow/Query      api_query.mbt, api_result.mbt; Events is api_event_query.mbt. Ended, Stats and Census
--                   hold the proofs.
--   Flow/Compensation
--                   core_compensation.mbt; Plan has the proofs.
-- The engine is passed along as a state, the field `world` of which is what lies outside: the clock, the
-- random numbers and all that the handlers of the steps read and change. Clock, random numbers and the
-- JSON values are parameters (`Platform`), a handler is any function from a value to a computation that
-- may change the world; a handler does not call the engine. A builder is used once, one call after the
-- other. The methods of a storage are run to their end where the engine calls them. A struct that wrapped
-- handlers change, such as a circuit breaker, is a part of the world that is read and written (`Ref`);
-- where it is said that handlers do not reach it, it stands beside their world. `load_events` gives back
-- an array that the storage goes on changing: the operation of the interface gives what it holds at the
-- call, and `LoadedArray` of Flow/Storage/Memory is the array itself. The JSON values of
-- snapshots are parameters with the laws of a pattern match; `Double` holds every `Int`.
--
-- Recursion. A sub-workflow is run inside its parent, and nothing in the program bounds their nesting:
-- `execute_workflow`, `start` and `resume_workflow` take the depth as fuel and give `none` for a workflow
-- that is nested deeper. A workflow without sub-workflow steps needs the depth 1. The attempts of a
-- step are counted down from `max_retry - attempt`, and the recursion of the source is shown to need no
-- more. The attempts of the retry wrappers are counted down from `max_attempts - 1` in the same way. The loop
-- of `retry_until` takes fuel and counts in 32 bits, so that it need not end; for a limit n below
-- 2147483647, n + 2 rounds are enough.
-- Numbers are shown with at most 20 digits, which those of 64 bits do not exceed.
--
-- Not modelled: the JSON text of events and metrics, the float rates of the metrics, the disk format of
-- the file back end (the source has only stubs), the error policies, which nothing uses, the printing of
-- errors, and timers, which do not sleep. The library moonbitlang/async, of which the repository carries a
-- downloaded copy (.mooncakes), is another project's and MoonFlow does not call it. It is no part of the
-- verified program. The modules Runtime, Fs and Net transcribe some of its C functions for reference.
pub mod Prelude
pub mod Flow
pub mod Runtime
pub mod Net
pub mod Fs
