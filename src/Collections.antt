-- ===== src/Collections.antt =====
-- collections/src: the heap allocator and the containers that take their memory from it.
pub mod Interface
pub mod FreeList
pub mod Queue
pub mod Vec
mod Tests
