-- ===== src/Sound/Registers.antt =====
-- sound/src/lib.rs: the registers of the sound device, each the word that it wraps.
pub mod Global
pub mod Rings
pub mod Stream
pub mod Pci
pub mod Laws
