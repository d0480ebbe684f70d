-- ===== src/Memory.antt =====
-- machine/src/memory.rs: addresses, and the map of the computer's memory.
pub mod Addr
pub mod Map
mod Tests
