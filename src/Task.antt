-- ===== src/Task.antt =====
-- evenk/task.h: `trivial_task` and `task`, callables that are moved and never copied.
pub mod Size
pub mod Trivial
pub mod Object
pub mod Moves
pub mod Assignment
