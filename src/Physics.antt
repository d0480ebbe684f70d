-- ===== src/Physics.antt =====
-- num/src/lib.rs and physics/src/lib.rs: the directions in which the game's objects move.
pub mod Angles
pub mod Tables
pub mod Velocity
pub mod Object
mod Tests
