-- ===== src/Queue.antt =====
-- The lock-free queues of core/distribution/lockfree_queue.hpp.
pub mod Fifo
pub mod Spsc
pub mod Mpsc
