-- ===== src/Sources.antt =====
-- harness/sources: where alerts come from, as far as the program decides something there.
pub mod Scan
pub mod Patched
