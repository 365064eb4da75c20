-- ===== src/Stress.antt =====
-- The generator that the stress tests share: embassy-example/src/lib.rs and examples/stress/mod.rs.
pub mod Prng
pub mod Payload
pub mod Transmit
pub mod Receive
pub mod Session
pub mod Truncate
