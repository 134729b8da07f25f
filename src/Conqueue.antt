-- ===== src/Conqueue.antt =====
-- evenk/conqueue.h: what the clients of a queue see of it, and the iterators over it.
pub mod Ops
pub mod Iterators
pub mod RoundTrip
pub mod Synch
pub mod Ends
