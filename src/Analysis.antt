-- ===== src/Analysis.antt =====
-- harness/analysis: what a checkout's code and lockfiles say about its packages.
pub mod Shipped
