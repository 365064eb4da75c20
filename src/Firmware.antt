-- ===== src/Firmware.antt =====
-- The programs of the bare-metal stress test (embassy-example/src/bin): the CAN interface that both
-- have, the sending loop and what the receiver counts.
pub mod Can
pub mod Transmit
pub mod Receive
pub mod Blob
