-- ===== src/Keyboard.antt =====
-- machine/src/keyboard: the PS/2 scancode decoder and the reader of UEFI key strokes.
pub mod Codes
pub mod Scancodes
pub mod Decoder
pub mod Process
pub mod Pairs
pub mod EfiCodes
pub mod Uefi
pub mod Layout
mod Tests
