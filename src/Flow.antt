-- ===== src/Flow.antt =====
-- MoonFlow, the workflow engine of moonflow/: its data, the event log and its replay, the storage
-- back ends, the engine that runs workflows, and sagas.
pub mod Async
pub mod Types
pub mod Builder
pub mod Log
pub mod Event
pub mod Replay
pub mod Snapshot
pub mod Storage
pub mod Metrics
pub mod Errors
pub mod Engine
pub mod Saga
pub mod Clock
pub mod Category
pub mod Middleware
pub mod Patterns
pub mod Validator
pub mod Query
pub mod Compensation
mod Tests
mod SagaTests
mod MiddlewareTests
mod QueryTests
mod SnapshotTests
