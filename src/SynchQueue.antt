-- ===== src/SynchQueue.antt =====
-- evenk/synch_queue.h: an unbounded queue under one lock, with a condition variable for consumers.
mod Defs
mod Fifo
mod Closing
pub mod Wakeups
unfoldable pub use Defs.*
unfoldable pub use Fifo.*
unfoldable pub use Closing.*
