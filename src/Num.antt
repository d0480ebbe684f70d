-- ===== src/Num.antt =====
-- num/src/lib.rs: the bit operations of `Integer`, on unsigned words.
pub mod Digits
pub mod Words
pub mod Bits
pub mod Masks
pub mod Ranges
pub mod Fields
pub mod Single
mod Tests
