-- ===== src/Stages.antt =====
-- harness/stages: what each stage does to one alert, on the database, with the report's counters.
-- Calls of models, of GitHub and of the checkout are arguments that hold their answers.
pub mod Ingest
pub mod Policy
pub mod Judgment
pub mod Validate
pub mod Dedup
pub mod Emit
pub mod Pipeline
pub mod Recon
pub mod Evidence
