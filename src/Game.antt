-- ===== src/Game.antt =====
-- blasterball/src/lib.rs: the game.
pub mod Defs
pub mod Collisions
pub mod Loop
pub mod Direction
pub mod Ball
pub mod Invariant
pub mod Blocks
pub mod Keys
pub mod Layout
pub mod Grid
pub mod Paddle
mod Tests
