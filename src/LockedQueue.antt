-- ===== src/LockedQueue.antt =====
-- The class `synch_queue` of evenk/synch_queue.h over `futex_lock` and `futex_cond_var` of evenk/synch.h.
pub mod Defs
pub mod Steps
pub mod Below
pub mod Weights
pub mod Places
pub mod Placed
pub mod Linear
pub mod Order
pub mod Notices
pub mod Served
pub mod Members
pub mod Woken
pub mod Kept
pub mod Wakeups
pub mod Progress
pub mod Deadlock
