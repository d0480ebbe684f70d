-- ===== src/Sync/Once.antt =====
-- sync/src/once.rs
pub mod Defs
pub mod Local
pub mod Act
pub mod Safety
pub mod Progress
mod Tests
