-- ===== src/LockGuard.antt =====
-- `lock_guard` of evenk/synch.h, and the mutexes that it guards.
pub mod Defs
pub mod Balance
