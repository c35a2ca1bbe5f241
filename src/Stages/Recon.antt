-- ===== src/Stages/Recon.antt =====
-- harness/stages/recon.py: the architecture of a repository, from the cache or from a model. The
-- checkout, the inventory that is built from it, the parse of the answer and its schema are arguments;
-- the texts of exceptions are left out of the wishes.
pub mod Calls
pub mod Cached
pub mod Allowed
use dependabot_harness.Prelude.{
  ℕ, ◌+◌, ◌-◌, ◌*◌, Bool, true, false, not, ◌&&◌, String, Option, none, some, List, [], ◌∷◌, Text,
  ltb, filter, ◌==◌, string_eq, if◌then◌else◌, Result, ok, err,
}
use dependabot_harness.Prelude.Sums.{sum_where}
use dependabot_harness.Database.{Database, SnapshotRow, ArchitectureRow, ArchitectureDoc, LedgerRow}
use dependabot_harness.Database.Snapshots.{last_seen, get_architecture, put_architecture}
use dependabot_harness.Database.Runs.{add_wish}
use dependabot_harness.Models.Budget.{BudgetConfig, CapScope, check}
use dependabot_harness.Models.Errors.{Python, ResponseClass}
use dependabot_harness.Models.Client.{
  ModelRequest, ModelResponse, ModelConfig, Provider, CallSite, Completion,
  context_ceiling_exceeded, ended, complete,
}
use dependabot_harness.Models.Client.Messages.{Message}
use dependabot_harness.Util.Retry.{Ending, value, reraised, exhausted}

-- What the stage is built with.
pub record ReconStage : Type 0 where
  pub architecture_ttl_days : ℕ
  pub budget : BudgetConfig
  pub ledger_run : String
  pub python : Python
  pub dumped : Message → ℕ
  pub provider : Provider
  pub model : ModelConfig
  pub max_attempts : ℕ
  pub prompt : Text
  -- `checkouts.ensure` with `build_inventory`, or the text of a CheckoutError.
  pub inventory : String → String → Result String Text
  -- `response.json()`, and whether the document fits the schema.
  pub parse : Text → Option ArchitectureDoc
  pub valid : ArchitectureDoc → Bool

pub data ReconError : Type 0 where
  no_snapshot call_failed invalid_document : ReconError
  deferred : Option CapScope → ReconError
  checkout_unavailable : String → ReconError
  over_ceiling : ℕ → ReconError

pub record RepoReconResult : Type 0 where
  pub repo : String
  pub structure_hash : String
  pub cached : Bool
  pub generated : Bool
  pub cost_usd : ℕ
  pub error : Option ReconError

abbrev pub result_of : String → String → RepoReconResult
result_of repo hash = record {
  repo = repo;
  structure_hash = hash;
  cached = false;
  generated = false;
  cost_usd = 0;
  error = none;
}

abbrev pub failing : String → String → ReconError → RepoReconResult
failing repo hash e = record (result_of repo hash) { error = some e }

-- SELECT ... WHERE repo=? ORDER BY seen_at DESC, rowid DESC LIMIT 1
unfoldable pub last_snapshot : Database → String → Option SnapshotRow
last_snapshot db repo = last_seen none (filter (λ row. row.repo == repo) db.snapshots)

-- `age_days(generated_at) <= architecture_ttl_days`, in seconds
unfoldable pub is_fresh : ℕ → ℕ → Option ArchitectureRow → Bool
is_fresh ttl now none = false
is_fresh ttl now (some row) = not (ltb (ttl * 86400) (now - row.generated_at))

abbrev pub of_stage : String → String → LedgerRow → Bool
of_stage run repo row = row.run_id == run && (row.repo == repo && row.stage == "recon")

-- `_recon_spend`
unfoldable pub recon_spend : String → String → Database → ℕ
recon_spend run repo db = sum_where (of_stage run repo) (λ row. row.cost_usd) db.ledger

-- `content.setdefault("repo", repo)` and `content["commit_sha"] = commit_sha`
abbrev pub completed : String → String → ArchitectureDoc → ArchitectureDoc
completed repo sha doc = record doc {
  repo = (elim doc.repo [ none ↦ some repo | some known ↦ some known ]);
  commit_sha = some sha;
}

unfoldable pub wish_gaps : String → String → ℕ → List String → Database → Database
wish_gaps run repo now [] db = db
wish_gaps run repo now (gap ∷ gaps) db =
    wish_gaps run repo now gaps (add_wish run repo gap "context_source" none now db)

abbrev pub wish_build_env : String → String → ℕ → Database → Database
wish_build_env run repo now db = add_wish run repo "could not clone" "build_env" none now db

abbrev pub wish_context : String → String → ℕ → Database → Database
wish_context run repo now db =
    add_wish run repo "inventory exceeded the context ceiling" "context_source" none now db

-- What follows a response; `before` is the spend before the call.
unfoldable pub store_answer :
    ReconStage
    → String
    → String
    → SnapshotRow
    → ℕ
    → ℕ
    → Text
    → Database
    → RepoReconResult × Database
store_answer stage run repo snapshot now before text db = elim (stage.parse text) [
  | none ↦ (failing repo snapshot.structure_hash invalid_document, db)
  | some doc ↦
      let content = completed repo snapshot.commit_sha doc in
      let cost = recon_spend stage.ledger_run repo db - before in
      let stored =
        put_architecture repo snapshot.commit_sha snapshot.structure_hash content cost now db in
      if stage.valid content
      then (
        record (result_of repo snapshot.structure_hash) { generated = true; cost_usd = cost },
        wish_gaps run repo now content.gaps stored,
      )
      else (failing repo snapshot.structure_hash invalid_document, db)
]

abbrev pub request_of : ReconStage → Text → ModelRequest
request_of stage inventory = record {
  system = stage.prompt;
  user = inventory;
  max_tokens = 8000;
  cacheable_prefix = stage.prompt;
  tools = [];
  effort = none;
  history = [];
}

abbrev pub call_site : ReconStage → String → CallSite
call_site stage repo = record {
  run_id = stage.ledger_run;
  repo = repo;
  stage = "recon";
  alert_key = none;
}

abbrev pub call : ReconStage → String → Text → Database → Completion × Database
call stage repo inventory db =
    complete stage.python stage.dumped stage.provider stage.model stage.max_attempts
      (call_site stage repo) (request_of stage inventory) db

-- The ends of the two `try` blocks.
unfoldable pub after_call :
    ReconStage
    → String
    → String
    → SnapshotRow
    → ℕ
    → ℕ
    → Completion × Database
    → RepoReconResult × Database
unfolding store_answer
after_call stage run repo snapshot now before (context_ceiling_exceeded estimated, after) =
    (failing repo snapshot.structure_hash (over_ceiling estimated), wish_context run repo now after)
after_call stage run repo snapshot now before (ended (value calls response), after) =
    store_answer stage run repo snapshot now before response.text after
after_call stage run repo snapshot now before (ended (reraised calls kind), after) =
    (failing repo snapshot.structure_hash call_failed, after)
after_call stage run repo snapshot now before (ended (exhausted calls), after) =
    (failing repo snapshot.structure_hash call_failed, after)

unfoldable pub generate :
    ReconStage → String → String → SnapshotRow → ℕ → Text → Database → RepoReconResult × Database
unfolding after_call
generate stage run repo snapshot now inventory db =
    after_call stage run repo snapshot now (recon_spend stage.ledger_run repo db)
      (call stage repo inventory db)

-- What follows the query of the snapshot; the exception is BudgetExceeded.
unfoldable pub recon_snapshot :
    ReconStage
    → String
    → String
    → SnapshotRow
    → ℕ
    → Database
    → Result CapScope (RepoReconResult × Database)
unfolding generate
recon_snapshot stage run repo snapshot now db =
    if is_fresh stage.architecture_ttl_days now (get_architecture db repo snapshot.structure_hash)
    then ok (record (result_of repo snapshot.structure_hash) { cached = true }, db)
    else elim (check stage.budget db stage.ledger_run repo none) [
      | err scope ↦ err scope
      | ok decision ↦
          if not decision.allowed
          then ok (failing repo snapshot.structure_hash (deferred decision.scope), db)
          else elim (stage.inventory repo snapshot.commit_sha) [
            | err e ↦ ok (
              failing repo snapshot.structure_hash (checkout_unavailable e),
              wish_build_env run repo now db,
            )
            | ok inventory ↦ ok (generate stage run repo snapshot now inventory db)
          ]
    ]

-- `run_repo`
unfoldable pub run_repo :
    ReconStage → String → String → ℕ → Database → Result CapScope (RepoReconResult × Database)
unfolding recon_snapshot
run_repo stage run repo now db = elim (last_snapshot db repo) [
  | none ↦ ok (failing repo "" no_snapshot, db)
  | some snapshot ↦ recon_snapshot stage run repo snapshot now db
]
