-- ===== src/Database.antt =====
-- harness/db.py: the tables and the operations of the DAO that the stages use. A row's JSON
-- columns hold the values that the code encodes there; `utcnow()` is an argument, in seconds.
pub mod Stages
pub mod Verdicts
pub mod Members
pub mod Alerts
pub mod Runs
pub mod Snapshots
use dependabot_harness.Prelude.{
  ℕ, ◌+◌, ◌≡◌, Bool, true, false, ◌&&◌, String, Option, none, some, List, [], ◌∷◌, ◌++◌, Text, ltb,
  or_default, ◌==◌, string_eq, filter, if◌then◌else◌,
}
use dependabot_harness.Prelude.Tables.{find, upsert}
use dependabot_harness.Alert.{AlertRecord, Score}
use dependabot_harness.Verdict.{VerdictDoc, VerdictName, Justification}
use dependabot_harness.Ecosystem.{ReachabilityResult}
use dependabot_harness.Policy.Context.{RuleOutcome}

-- `STAGES`. `record_stage` refuses any other name with a ValueError; its callers pass these.
pub data Stage : Type 0 where
  ingest policy dedup evidence judgment validate emit : Stage

pub data Status : Type 0 where
  pending running done failed skipped budget_deferred : Status

-- `TERMINAL_STATUSES`
abbrev pub is_terminal : Status → Bool
is_terminal done = true
is_terminal skipped = true
is_terminal _ = false

abbrev pub stage_beq : Stage → Stage → Bool
stage_beq ingest ingest = true
stage_beq policy policy = true
stage_beq dedup dedup = true
stage_beq evidence evidence = true
stage_beq judgment judgment = true
stage_beq validate validate = true
stage_beq emit emit = true
stage_beq _ _ = false

-- The JSON that the stages store in `payload_json`, one shape for each writer.
pub data Payload : Type 0 where
  no_rule_matched : Payload
  rule_outcome : RuleOutcome → Payload
  cluster_payload : Option String → Bool → Option String → Payload
  bundle : ReachabilityResult → Payload
  deferred : String → ℕ → Payload
  judged : Option VerdictName → ℕ → Payload
  validation : Bool → Option Bool → Payload
  not_dismissed : Payload
  dismissed : Option Justification → Payload
  cache_replay : String → ℕ → String → String → Payload
  ingested : String → String → Bool → String → Bool → Payload

pub record StageRow : Type 0 where
  pub run_id : String
  pub alert_key : String
  pub stage : Stage
  pub status : Status
  pub payload : Option Payload
  pub error : Option String
  pub attempts : ℕ
  pub cost_usd : ℕ
  pub tokens_in : ℕ
  pub tokens_out : ℕ
  pub updated_at : ℕ

pub record VerdictRow : Type 0 where
  pub alert_key : String
  pub run_id : String
  pub verdict : VerdictDoc
  pub validated : Option Bool
  pub validator_notes : Option Text
  pub created_at : ℕ
  pub structure_hash : Option String

pub record ClusterRow : Type 0 where
  pub cluster_id : String
  pub alert_key : String
  pub is_canonical : Bool

pub record LedgerRow : Type 0 where
  pub run_id : String
  pub repo : String
  pub alert_key : Option String
  pub stage : String
  pub cost_usd : ℕ
  pub priced : Bool
  pub tokens_in : ℕ
  pub tokens_out : ℕ

pub record RunRow : Type 0 where
  pub run_id : String
  pub started_at : ℕ
  pub finished_at : Option ℕ
  pub status : String
  pub config_hash : String

pub record SnapshotRow : Type 0 where
  pub repo : String
  pub commit_sha : String
  pub structure_hash : String
  pub seen_at : ℕ

-- The architecture document: the keys that the code reads or sets, and the rest as JSON.
pub record ArchitectureDoc : Type 0 where
  pub repo : Option String
  pub commit_sha : Option String
  pub gaps : List String
  pub other : Text

pub record ArchitectureRow : Type 0 where
  pub repo : String
  pub commit_sha : String
  pub structure_hash : String
  pub content : ArchitectureDoc
  pub generated_at : ℕ
  pub cost_usd : ℕ

pub record WishRow : Type 0 where
  pub run_id : String
  pub alert_key : Option String
  pub repo : String
  pub need : String
  pub category : String
  pub created_at : ℕ
  pub resolved_at : Option ℕ

pub record Database : Type 0 where
  pub alerts : List AlertRecord
  pub stage_results : List StageRow
  pub verdicts : List VerdictRow
  pub clusters : List ClusterRow
  pub ledger : List LedgerRow
  pub runs : List RunRow
  pub snapshots : List SnapshotRow
  pub architecture : List ArchitectureRow
  pub wishlist : List WishRow

-- `WHERE run_id=? AND alert_key=? AND stage=?`
unfoldable pub at_stage : String → String → Stage → StageRow → Bool
at_stage run key stage row =
    row.run_id == run && (row.alert_key == key && stage_beq row.stage stage)

-- The arguments of `record_stage` beside the key, with the defaults of the source.
pub record StageWrite : Type 0 where
  pub status : Status
  pub payload : Option Payload
  pub error : Option String
  pub cost_usd : ℕ
  pub tokens_in : ℕ
  pub tokens_out : ℕ

abbrev pub stage_write : Status → Option Payload → StageWrite
stage_write status payload = record {
  status = status;
  payload = payload;
  error = none;
  cost_usd = 0;
  tokens_in = 0;
  tokens_out = 0;
}

-- SQL's COALESCE(new, old).
abbrev pub coalesce {ℓ} : {A : Type ℓ} → Option A → Option A → Option A
coalesce none old = old
coalesce (some new) old = some new

unfoldable pub new_row : String → String → Stage → StageWrite → ℕ → StageRow
new_row run key stage w now = record {
  run_id = run;
  alert_key = key;
  stage = stage;
  status = w.status;
  payload = w.payload;
  error = w.error;
  attempts = 1;
  cost_usd = w.cost_usd;
  tokens_in = w.tokens_in;
  tokens_out = w.tokens_out;
  updated_at = now;
}

unfoldable pub merge_row : StageWrite → ℕ → StageRow → StageRow
merge_row w now row = record row {
  status = w.status;
  payload = coalesce w.payload row.payload;
  error = coalesce w.error row.error;
  attempts = row.attempts + 1;
  cost_usd = row.cost_usd + w.cost_usd;
  tokens_in = row.tokens_in + w.tokens_in;
  tokens_out = row.tokens_out + w.tokens_out;
  updated_at = now;
}

-- `record_stage`
unfoldable pub record_stage : String → String → Stage → StageWrite → ℕ → Database → Database
record_stage run key stage w now db = record db {
  stage_results =
      upsert (at_stage run key stage) (merge_row w now) (new_row run key stage w now)
        db.stage_results;
}

unfoldable pub stage_row : Database → String → String → Stage → Option StageRow
stage_row db run key stage = find (at_stage run key stage) db.stage_results

unfoldable pub stage_status : Database → String → String → Stage → Option Status
stage_status db run key stage = elim (stage_row db run key stage) [
  | none ↦ none
  | some row ↦ some row.status
]

unfoldable pub stage_payload : Database → String → String → Stage → Option Payload
stage_payload db run key stage = elim (stage_row db run key stage) [
  | none ↦ none
  | some row ↦ row.payload
]

-- The resume predicate.
unfoldable pub is_stage_complete : Database → String → String → Stage → Bool
unfolding stage_status
is_stage_complete db run key stage = elim (stage_status db run key stage) [
  | none ↦ false
  | some status ↦ is_terminal status
]

unfoldable pub alerts_for_repo : Database → String → List AlertRecord
alerts_for_repo db repo = filter (λ a. a.repo == repo) db.alerts

unfoldable pub of_verdict : String → String → VerdictRow → Bool
of_verdict key run row = row.alert_key == key && row.run_id == run

unfoldable pub verdict_row :
    String → String → VerdictDoc → Option Bool → Option Text → Option String → ℕ → VerdictRow
verdict_row key run doc validated notes hash now = record {
  alert_key = key;
  run_id = run;
  verdict = doc;
  validated = validated;
  validator_notes = notes;
  created_at = now;
  structure_hash = hash;
}

-- `put_verdict`: one row for each alert and run, replaced whole.
unfoldable pub put_verdict :
    String
    → String
    → VerdictDoc
    → Option Bool
    → Option Text
    → Option String
    → ℕ
    → Database
    → Database
put_verdict key run doc validated notes hash now db =
    let row = verdict_row key run doc validated notes hash now in
    record db { verdicts = upsert (of_verdict key run) (λ old. row) row db.verdicts }

-- The newest of the rows, the first of those that tie: `created_at` has whole seconds, and SQL
-- leaves the order of ties open.
unfoldable pub newest : Option VerdictRow → List VerdictRow → Option VerdictRow
newest best [] = best
newest none (row ∷ rows) = newest (some row) rows
newest (some best) (row ∷ rows) =
    newest (some (if ltb best.created_at row.created_at then row else best)) rows

-- `latest_verdict`: ORDER BY created_at DESC LIMIT 1
unfoldable pub latest_verdict : Database → String → Option VerdictRow
unfolding newest
latest_verdict db key = newest none (filter (λ row. row.alert_key == key) db.verdicts)
