-- ===== src/Policy.antt =====
-- harness/policy: the facts that rules consult, the rules, and the engine that runs them in order.
pub mod Context
pub mod Facts
pub mod Rules
pub mod Engine
pub mod Clearance
pub mod Soundness
pub mod Accounting
pub mod Default
