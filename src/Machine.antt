-- ===== src/Machine.antt =====
-- machine/src: the interrupt controllers.
pub mod Pic
mod Tests
