-- ===== src/Tests.antt =====
-- Concrete inputs, small runs, and each theorem at an input where its hypotheses hold.
mod Client
mod Recon
mod EnvFile
mod Evidence
mod Ingest
mod Sources
mod Evaluation
mod Samples
mod Versions
mod Rules
mod Gates
mod Store
mod Runs
mod Loops
mod Money
mod Index
