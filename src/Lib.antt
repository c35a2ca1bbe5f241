-- ===== src/Lib.antt =====
-- dependabot-harness triages dependency alerts: deterministic rules decide what measured facts decide,
-- agents judge the rest, a validator checks the agents, and a gate guards the one write that closes
-- an alert on GitHub.
--
-- The parts, in the order in which an alert meets them, and the files that model them:
--
--   harness/db.py: Alert (the record of an alert) and Database (the tables that the stages share, each
--     a list of rows; `record_stage` and `put_verdict` are INSERT ... ON CONFLICT DO UPDATE at a key,
--     `upsert` of Prelude/Tables), with Database/Alerts, Runs and Snapshots for the tables beside stage
--     results and verdicts.
--   harness/versions.py: Version (the key order), Version/Parse (the parser on code points) and
--     Version/Decide (the questions that may be undecidable).
--   harness/ecosystems/base.py, __init__.py: Ecosystem (adapters as constants, aliases, the clamp)
--     and Ecosystem/Tree (the search of a dependency path).
--   harness/policy, config/policy.yaml: Policy. Context has the facts of an alert, Rules one function
--     for each rule class, Engine the ordered evaluation with its check and its counters, Facts the
--     choice among sibling advisories, Default the file that the repository ships.
--   harness/stages: Stages. Ingest, Recon, Evidence, Policy, Judgment, Validate, Dedup and Emit have the body of each stage's
--     loop, on the database and the report's counters; Pipeline puts their writes together as steps.
--   harness/dedup/index.py: Dedup (the inverted index and the shortlist) and Dedup/Trivial
--     (the clusters no model is needed for).
--   harness/sources/osv_scan.py: Sources/Scan (the discovery of dependencies and the batches of queries)
--     and Sources/Patched (the fix that an advisory names), with Ecosystem/Manifest (what is pinned).
--   harness/validation/mechanical.py: Validation (the checks before the validator).
--   harness/emit/dismissal.py: Emit/Dismissal (the gate).
--   harness/emit/openvex.py: Emit/Openvex (the statements of the VEX document).
--   harness/agents: Agents (the toolbox's cap and the loop that drives one agent) and Agents/Files
--     (the tools that read the checkout).
--   harness/models/budget.py: Models/Budget (prices, the ledger's sums, the six caps).
--   harness/models/client.py, errors.py: Models/Client (a call with its ceiling, its retries and its rows on
--     the ledger), Models/Client/Messages (the two formats of a conversation), Models/Errors (what a
--     response or an exception is taken for).
--   harness/analysis/shipped.py: Analysis/Shipped (what a bundle holds).
--   harness/evaluation/metrics.py: Evaluation (a report's counts and rates, and the gate on two reports).
--   harness/env_file.py: EnvFile (the parse of a .env file and its load into the environment).
--   harness/util.py: Util (the package name in a purl) and Util/Retry (the retry loop).
--
-- A verdict is passed on as one document (Verdict), the `dict` of the program with the keys that the
-- code reads. Strings that the code compares with a vocabulary are data types with one constructor for
-- anything else. Strings that it takes apart are lists of code points. Scores and confidences are
-- whole ten-thousandths: the code compares them with one another and with constants of at most four
-- decimals. Times are whole seconds, as in the database, and an argument where the code asks the
-- clock.
--
-- Answers of models, of GitHub, of JSON Schema and of the file system are arguments. Three loops are on
-- fuel: the agent loop (one more than the calls that remain is enough, since each round that goes on
-- uses one), the closure (as much as there are seeds and edges, since each edge is pushed at most
-- once), and the search of a dependency path (as much as there are edges, and one for the root).
-- Every other loop runs over a list, or counts down. Money is whole ten-billionths of a dollar, and
-- rates are natural numbers: a negative rate, which the configuration does not refuse, is left out.
--
-- Not modelled: the command line, the configuration, network sources, the parsers of
-- manifests and the scanners of code (the rules take their results as arguments), the prompts, the
-- JSON around the VEX statements, the SARIF and comment texts, and the evaluation scripts.
pub mod Prelude
pub mod Version
pub mod Alert
pub mod Ecosystem
pub mod Verdict
pub mod Util
pub mod Policy
pub mod Database
pub mod Emit
pub mod Validation
pub mod Stages
pub mod Dedup
pub mod Agents
pub mod Models
pub mod Analysis
pub mod Sources
pub mod Evaluation
pub mod EnvFile
pub mod Tests
