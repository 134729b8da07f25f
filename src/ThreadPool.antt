-- ===== src/ThreadPool.antt =====
-- evenk/thread_pool.h: workers that take tasks from a `synch_queue`.
pub mod Defs
pub mod Steps
pub mod Invariant
pub mod Preserve
pub mod Reachable
pub mod Waiting
pub mod Ending
pub mod Stopping
pub mod Crashing
