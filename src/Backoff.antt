-- ===== src/Backoff.antt =====
-- evenk/backoff.h: pauses and back-off policies for busy waiting.
-- A policy object is its state. A call returns whether the ceiling is reached, what the thread did
-- while it waited, and the new state.
mod Calls
mod Ceiling
mod Composite
unfoldable pub use Calls.*
pub use Ceiling.*
pub use Composite.*
