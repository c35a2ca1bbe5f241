-- ===== src/Emit.antt =====
-- harness/emit: the gate before the one write that closes an alert, and the OpenVEX statements.
pub mod Dismissal
pub mod Openvex
