-- ===== src/Embassy.antt =====
-- embassy-example/src: the bare-metal backend.
pub mod Handles
pub mod RingQueue
pub mod Semaphore
pub mod Heap
pub mod Mutex
pub mod Clock
pub mod Queues
