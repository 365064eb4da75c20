-- ===== src/TestArch.antt =====
-- src/arch/test_arch.rs: the hosted backend.
pub mod Mutex
pub mod Queue
pub mod Semaphore
pub mod Threads
pub mod Clock
pub mod PosixSemaphore
pub mod Handles
