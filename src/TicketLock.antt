-- ===== src/TicketLock.antt =====
-- The class `ticket_lock` of evenk/spinlock.h: a FIFO lock in two 16-bit counters.
pub mod Moves
pub mod Invariant
pub mod Exclusion
pub mod TryLock
