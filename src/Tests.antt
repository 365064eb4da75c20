-- ===== src/Tests.antt =====
-- The theorems applied at concrete inputs.
mod Queues
mod Strings
mod Transfers
mod Heap
mod Platform
mod Services
mod Builds
mod Nodes
mod Wrappers
mod Stressed
mod Firmwares
mod Unit
