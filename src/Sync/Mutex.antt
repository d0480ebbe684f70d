-- ===== src/Sync/Mutex.antt =====
-- sync/src/mutex.rs
pub mod Defs
pub mod Safety
pub mod Progress
mod Tests
