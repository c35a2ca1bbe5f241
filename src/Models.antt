-- ===== src/Models.antt =====
-- harness/models: what stands between the stages and a model's API.
pub mod Budget
pub mod Errors
pub mod Client
