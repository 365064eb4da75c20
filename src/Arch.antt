-- ===== src/Arch.antt =====
-- src/arch.rs: the C entry points that `export_arch!` emits, and the C string functions.
pub mod Queues
pub mod Rand
pub mod Semaphores
pub mod CString
pub mod Threads
pub mod Hooks
pub mod Handles
