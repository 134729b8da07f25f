-- ===== src/FutexCondVar.antt =====
-- The class `futex_cond_var` of evenk/synch.h, used with one `futex_lock`.
pub mod Moves
pub mod Steps
pub mod OnLock
pub mod Refines
pub mod Kept
pub mod Weights
pub mod Notices
pub mod Wakeups
