-- ===== src/Tests.antt =====
-- The theorems at concrete inputs, and runs of the definitions.
mod Backoff
mod LockedQueue
mod Locks
mod SynchQueue
mod BoundedQueue
mod Task
mod Conqueue
mod Ring
mod LockGuard
mod ThreadPool
mod FutexCondVar
mod Thread
mod Futex
mod FutexSlot
