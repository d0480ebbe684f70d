-- ===== src/Collections/Queue.antt =====
-- collections/src/queue.rs: the growable first-in first-out queue.
pub mod Defs
pub mod Window
pub mod Refine
pub mod Trace
pub mod Faults
