-- ===== src/Collections/FreeList.antt =====
-- collections/src/allocator.rs: the first-fit allocator, whose free regions are the nodes of a list.
pub mod Defs
pub mod Spec
pub mod Chain
pub mod Refine
pub mod Release
pub mod Alloc
pub mod RoundTrip
