-- ===== src/Tests/Recon.antt =====
-- A pass that generates an architecture, and one that finds it, for one repository.
use dependabot_harness.Prelude.{
  ℕ, ◌≤◌, ◌≡◌, refl, Bool, true, false, String, Option, none, some, List, [], ◌∷◌, Text, codes,
  Result, ok, err, nat_beq, arith,
}
use dependabot_harness.Database.{Database, SnapshotRow, ArchitectureDoc}
use dependabot_harness.Models.Budget.{BudgetConfig, queue_next_run}
use dependabot_harness.Tests.Samples.{empty_db}
use dependabot_harness.Tests.Client.{ascii, small_config, recovering}
use dependabot_harness.Stages.Recon.{ReconStage, RepoReconResult, result_of, generate, run_repo}
use dependabot_harness.Stages.Recon.Cached.{run_repo-cached}
use dependabot_harness.Stages.Recon.Allowed.{IsCharged, run_repo-IsCharged}

abbrev wide_caps : BudgetConfig
wide_caps = record {
  per_run_usd = 1000000000;
  per_repo_usd = 1000000000;
  per_alert_usd = 1000000000;
  per_run_tokens = none;
  per_repo_tokens = none;
  per_alert_tokens = none;
  on_breach = queue_next_run;
}

abbrev bare_doc : ArchitectureDoc
bare_doc = record { repo = none; commit_sha = none; gaps = "no build file" ∷ []; other = [] }

abbrev stage : ReconStage
stage = record {
  architecture_ttl_days = 30;
  budget = wide_caps;
  ledger_run = "r1";
  python = ascii;
  dumped = λ m. 0;
  provider = recovering;
  model = small_config;
  max_attempts = 3;
  prompt = codes "describe";
  inventory = λ repo sha. ok (codes "# Repository");
  parse = λ text. some bare_doc;
  valid = λ doc. true;
}

abbrev snapshot : SnapshotRow
snapshot = record { repo = "org/app"; commit_sha = "c1"; structure_hash = "h1"; seen_at = 10 }

abbrev seen_db : Database
seen_db = record empty_db { snapshots = snapshot ∷ [] }

abbrev first_pass : RepoReconResult × Database
first_pass = generate stage "r1" "org/app" snapshot 100 (codes "# Repository") seen_db

generates : first_pass.0.generated ≡ true
unfolding dependabot_harness.Stages.Recon.last_snapshot
    dependabot_harness.Database.Snapshots.last_seen dependabot_harness.Stages.Recon.is_fresh
    dependabot_harness.Database.Snapshots.get_architecture dependabot_harness.Prelude.Tables.find
    dependabot_harness.Models.Budget.check dependabot_harness.Models.Budget.first_breach
    dependabot_harness.Models.Budget.spend dependabot_harness.Models.Client.complete
    dependabot_harness.Models.Client.estimated_tokens
    dependabot_harness.Models.Client.clamp_max_tokens dependabot_harness.Models.Client.ask
    dependabot_harness.Models.Client.once dependabot_harness.Models.Errors.is_usable
    dependabot_harness.Models.Errors.classify dependabot_harness.Version.Parse.strip
    dependabot_harness.Database.Runs.add_wish dependabot_harness.Database.Snapshots.put_architecture
    dependabot_harness.Models.Budget.in_scope dependabot_harness.Models.Budget.is_priced
    dependabot_harness.Models.Budget.price dependabot_harness.Models.Budget.pricing
    dependabot_harness.Models.Budget.record_call dependabot_harness.Models.Budget.resolved_rates
    dependabot_harness.Models.Budget.tokens
    dependabot_harness.Models.Client.classify_provider_exception
    dependabot_harness.Models.Errors.after_pattern dependabot_harness.Models.Errors.as_json_object
    dependabot_harness.Models.Errors.classify_body dependabot_harness.Models.Errors.is_error_text
    dependabot_harness.Models.Errors.is_markup
    dependabot_harness.Models.Errors.is_permanent_provider_error
    dependabot_harness.Models.Errors.is_retryable dependabot_harness.Models.Errors.search_word
    dependabot_harness.Models.Errors.transient_from_json dependabot_harness.Models.Errors.word_at
    dependabot_harness.Prelude.Tables.upsert dependabot_harness.Stages.Recon.after_call
    dependabot_harness.Stages.Recon.generate dependabot_harness.Stages.Recon.recon_snapshot
    dependabot_harness.Stages.Recon.recon_spend dependabot_harness.Stages.Recon.store_answer
    dependabot_harness.Stages.Recon.wish_gaps dependabot_harness.Version.Parse.lstrip
    dependabot_harness.Version.Parse.rstrip
generates = refl

-- Another commit of the same structure, seen after the first pass.
abbrev newer : SnapshotRow
newer = record { repo = "org/app"; commit_sha = "c2"; structure_hash = "h1"; seen_at = 1500 }

abbrev later_db : Database
later_db = record (first_pass.1) { snapshots = snapshot ∷ newer ∷ [] }

run_repo-cached_example :
    run_repo stage "r2" "org/app" 2000 later_db
    ≡ ok (record (result_of "org/app" first_pass.0.structure_hash) { cached = true }, later_db)
unfolding dependabot_harness.Stages.Recon.run_repo dependabot_harness.Stages.Recon.last_snapshot
    dependabot_harness.Database.Snapshots.last_seen dependabot_harness.Stages.Recon.is_fresh
    dependabot_harness.Database.Snapshots.get_architecture dependabot_harness.Prelude.Tables.find
    dependabot_harness.Models.Budget.check dependabot_harness.Models.Budget.first_breach
    dependabot_harness.Models.Budget.spend dependabot_harness.Models.Client.complete
    dependabot_harness.Models.Client.estimated_tokens
    dependabot_harness.Models.Client.clamp_max_tokens dependabot_harness.Models.Client.ask
    dependabot_harness.Models.Client.once dependabot_harness.Models.Errors.is_usable
    dependabot_harness.Models.Errors.classify dependabot_harness.Version.Parse.strip
    dependabot_harness.Database.Runs.add_wish dependabot_harness.Database.Snapshots.put_architecture
    dependabot_harness.Models.Budget.in_scope dependabot_harness.Models.Budget.is_priced
    dependabot_harness.Models.Budget.price dependabot_harness.Models.Budget.pricing
    dependabot_harness.Models.Budget.record_call dependabot_harness.Models.Budget.resolved_rates
    dependabot_harness.Models.Budget.tokens
    dependabot_harness.Models.Client.classify_provider_exception
    dependabot_harness.Models.Errors.after_pattern dependabot_harness.Models.Errors.as_json_object
    dependabot_harness.Models.Errors.classify_body dependabot_harness.Models.Errors.is_error_text
    dependabot_harness.Models.Errors.is_markup
    dependabot_harness.Models.Errors.is_permanent_provider_error
    dependabot_harness.Models.Errors.is_retryable dependabot_harness.Models.Errors.search_word
    dependabot_harness.Models.Errors.transient_from_json dependabot_harness.Models.Errors.word_at
    dependabot_harness.Prelude.Tables.upsert dependabot_harness.Stages.Recon.after_call
    dependabot_harness.Stages.Recon.generate dependabot_harness.Stages.Recon.recon_snapshot
    dependabot_harness.Stages.Recon.recon_spend dependabot_harness.Stages.Recon.store_answer
    dependabot_harness.Stages.Recon.wish_gaps dependabot_harness.Version.Parse.lstrip
    dependabot_harness.Version.Parse.rstrip
run_repo-cached_example =
    run_repo-cached stage stage "r1" "r2" "org/app" 100 2000 seen_db first_pass.1 later_db
      first_pass.0 newer refl generates refl refl refl (omega arith)

run_repo-IsCharged_example :
    IsCharged stage "org/app" seen_db (run_repo stage "r1" "org/app" 100 seen_db)
run_repo-IsCharged_example = run_repo-IsCharged stage "r1" "org/app" 100 seen_db
