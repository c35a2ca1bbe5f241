-- ===== src/Tests/Evidence.antt =====
-- A pass of the evidence stage over one pending alert, whose tools fail.
use dependabot_harness.Prelude.{◌≡◌, refl, true, String, Option, some, none, List, [], ◌∷◌, ok, err}
use dependabot_harness.Database.{
  Database, policy, evidence, done, failed, stage_write, record_stage, stage_status,
}
use dependabot_harness.Tests.Samples.{alert_db}
use dependabot_harness.Stages.Evidence.{pending, evidence_repo, database_after}
use dependabot_harness.Stages.Evidence.Shallow.{IsEnded, evidence_repo-IsEnded}

abbrev decided_db : Database
decided_db = record_stage "r1" "k1" policy (stage_write done none) 3 alert_db

evidence_repo-IsEnded_example :
    IsEnded "r1"
      (pending "r1" "org/app" decided_db)
      decided_db
      (evidence_repo (λ b. true) (λ repo sha. err "no clone") "r1" "org/app" 7 decided_db)
evidence_repo-IsEnded_example =
    evidence_repo-IsEnded (λ b. true) (λ repo sha. err "no clone") "r1" "org/app" 7 decided_db

-- Nothing could be measured, so the stage is to run again.
failed_again :
    stage_status
      (database_after
        (evidence_repo (λ b. true) (λ repo sha. err "no clone") "r1" "org/app" 7 decided_db))
      "r1"
      "k1"
      evidence
    ≡ some failed
unfolding dependabot_harness.Database.stage_status dependabot_harness.Database.stage_row
    dependabot_harness.Prelude.Tables.find dependabot_harness.Stages.Evidence.evidence_repo
    dependabot_harness.Stages.Evidence.pending dependabot_harness.Database.alerts_for_repo
    dependabot_harness.Database.record_stage dependabot_harness.Database.is_stage_complete
    dependabot_harness.Prelude.Tables.upsert dependabot_harness.Database.at_stage
    dependabot_harness.Database.new_row dependabot_harness.Ecosystem.get_adapter
    dependabot_harness.Stages.Evidence.finish_evidence dependabot_harness.Stages.Evidence.is_shallow
    dependabot_harness.Ecosystem.is_failure dependabot_harness.Ecosystem.clamp
    dependabot_harness.Stages.Evidence.checkout_of dependabot_harness.Alert.symbols_known
    dependabot_harness.Database.Snapshots.last_seen dependabot_harness.Database.merge_row
    dependabot_harness.Ecosystem.confidence_ceiling dependabot_harness.Ecosystem.failed_result
    dependabot_harness.Ecosystem.get dependabot_harness.Ecosystem.resolve_alias
    dependabot_harness.Stages.Evidence.build dependabot_harness.Stages.Evidence.evidence_all
    dependabot_harness.Stages.Evidence.evidence_one
    dependabot_harness.Stages.Evidence.needs_evidence
    dependabot_harness.Stages.Evidence.reachability dependabot_harness.Stages.Evidence.requeue
    dependabot_harness.Stages.Recon.last_snapshot dependabot_harness.Version.Parse.lower
failed_again = refl
