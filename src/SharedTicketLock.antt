-- ===== src/SharedTicketLock.antt =====
-- `shared_ticket_lock` of evenk/spinlock.h.
pub mod Moves
pub mod Order
pub mod Kept
pub mod Writers
pub mod TryMoves
pub mod TryTickets
pub mod Exclusion
pub mod Turns
