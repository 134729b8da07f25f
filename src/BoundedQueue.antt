-- ===== src/BoundedQueue.antt =====
-- evenk/bounded_queue.h: a bounded queue of many producers and many consumers, a ring of slots whose
-- tokens say whose turn it is.
pub mod Encoding
pub mod Slot
pub mod FutexSlot
pub mod SlotWakeups
pub mod Ring
pub mod Create
pub mod State
pub mod Moves
pub mod Steps
pub mod Roles
pub mod Others
pub mod SlotLaws
pub mod Invariant
pub mod Places
pub mod Laps
pub mod SlotSteps
pub mod CountSteps
pub mod Preserve
pub mod Always
pub mod Delivery
pub mod Tickets
pub mod TicketSteps
pub mod TicketMoves
pub mod TicketWrites
pub mod TicketReach
pub mod Turns
pub mod TryPush
