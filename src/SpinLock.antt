-- ===== src/SpinLock.antt =====
-- The classes `spin_lock` and `tatas_lock` of evenk/spinlock.h: locks in one atomic flag.
-- Both are instances of one interface, and mutual exclusion is proved from its law alone.
pub mod Flag
pub mod Spin
pub mod Tatas
pub mod Exclusion
