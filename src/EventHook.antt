-- ===== src/EventHook.antt =====
-- event_hook/src/lib.rs: the mediator between the interrupt service routines and the game.
pub mod Defs
pub mod Requests
pub mod Send
pub mod Missed
pub mod Hook
mod Tests
