-- ===== src/Memory/Map.antt =====
-- machine/src/memory.rs: the map of the memory that the firmware reports.
pub mod Regions
pub mod Defs
pub mod Sort
pub mod Overlaps
pub mod Add
pub mod Allocator
pub mod Mark
