-- ===== src/Collections/Vec.antt =====
-- collections/src/vec.rs: the growable array.
pub mod Defs
pub mod Refine
pub mod Remove
