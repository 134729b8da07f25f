-- ===== src/Thread.antt =====
-- The class `thread` of evenk/thread.h: what it adds to `std::thread`.
pub mod Defs
pub mod Affinity
