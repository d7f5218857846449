-- ===== src/Runtime.antt =====
-- The asynchronous runtime that the repository carries: its thread pool, polling, descriptors and
-- signals (.mooncakes/moonbitlang/async/src/internal: event_loop/thread_pool.c, epoll.c, kqueue.c,
-- signal.c, io_unix.mbt, fd_util/stub.c).
pub mod Calls
pub mod Job
pub mod Files
pub mod Open
pub mod Paths
pub mod Lookup
pub mod Processes
pub mod Jobs
pub mod Pool
pub mod Signals
pub mod Cancellation
pub mod Addresses
pub mod IoHandle
pub mod Spawn
pub mod FileFlags
pub mod Poll
