-- ===== src/Sync.antt =====
-- sync/src: the spin lock and the one-time initializer, under threads that interleave in any order.
pub mod Threads
pub mod Mutex
pub mod Once
