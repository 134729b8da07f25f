-- ===== src/FutexLock.antt =====
-- The class `futex_lock` of evenk/synch.h: a mutex in one 32-bit futex word.
-- The word is 0 if the lock is free, 1 if it is taken, and 2 if it is taken and may have waiters.
pub mod Moves
pub mod Exclusion
pub mod Wakeups
