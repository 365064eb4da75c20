-- ===== src/Can.antt =====
-- src/can.rs: the CFP header fields of the 29-bit CAN identifier, and the CAN interface.
pub mod Cfp
pub mod Interface
