-- ===== src/Tests/Ingest.antt =====
-- Ingest at a concrete alert, with sources that answer.
use dependabot_harness.Prelude.{
  ℕ, ◌+◌, ◌≤◌, ◌≡◌, refl, true, String, Option, none, some, List, [], ◌∷◌, length, codes, In, here,
  is_some, arith, ok,
}
use dependabot_harness.Database.{
  Database, VerdictRow, verdict_row, put_verdict, ingest, stage_status, is_stage_complete,
}
use dependabot_harness.Stages.Ingest.{
  Sources, RawAlert, RepoIngestResult, ScopeResult, alert_key, ingest_one, ingest_repo,
}
use dependabot_harness.Stages.Ingest.Accounts.{ingest_repo_accounts, ingest_repo_completes}
use dependabot_harness.Stages.Ingest.Replay.{IsFresh, IsReplay, ingest_one-IsReplay}
use dependabot_harness.Stages.Ingest.Renewal.{Passes, stop, between, pass, verdict_never_expires}
use dependabot_harness.Alert.{State}
use dependabot_harness.Tests.Samples.{empty_db, cleared_doc}

abbrev answering : Sources
answering = record {
  osv = λ ghsa. ok none;
  epss = λ cve. ok none;
  kev = λ cve. ok true;
  manifest = λ path. ok none;
  resolve_scope =
      λ text name. ok (record { scope = "runtime"; is_direct = some true; source = "go.mod" });
  schema = λ alert. ok tt;
  digest = λ text. "k1";
}

abbrev raw_alert : RawAlert
raw_alert = record {
  repo = "org/app";
  number = 7;
  state = State.open_state;
  created_at = 10;
  manifest_path = codes "go.mod";
  requirements = some (codes "= 1.2.0");
  ghsa_id = "GHSA-1";
  cve_id = none;
  package_name = codes "example.com/lib";
  ecosystem = codes "go";
  patched_version = none;
  severity = none;
  cvss_score = none;
}

abbrev counters : RepoIngestResult
counters = record {
  structure_changed = true;
  total = 1;
  ingested = 0;
  replayed = 0;
  failed = 0;
  unsupported_ecosystem = 0;
}

ingest_repo_accounts_example :
    let (db', r) = ingest_repo answering 1 "r1" "org/app" "c1" "s1" 20 (raw_alert ∷ []) empty_db in
    (r.total ≡ 1)
    × (r.ingested + r.replayed + r.failed ≡ 1)
    × (r.unsupported_ecosystem ≤ 1)
    × ((raw : RawAlert)
        → In raw (raw_alert ∷ [])
        → is_some (stage_status db' "r1" (alert_key answering.digest raw) ingest) ≡ true)
ingest_repo_accounts_example =
    ingest_repo_accounts answering 1 "r1" "org/app" "c1" "s1" 20 (raw_alert ∷ []) empty_db

answers :
    (db : Database)
    → dependabot_harness.Stages.Ingest.Accounts.is_ok
        (dependabot_harness.Stages.Ingest.gather answering raw_alert "k1" 20 db)
      ≡ true
unfolding dependabot_harness.Stages.Ingest.gather dependabot_harness.Ecosystem.get_adapter
answers db = refl

ingest_repo_completes_example :
    is_stage_complete
      (ingest_repo answering 1 "r1" "org/app" "c1" "s1" 20 (raw_alert ∷ []) empty_db).0
      "r1"
      "k1"
      ingest
    ≡ true
unfolding alert_key
ingest_repo_completes_example =
    ingest_repo_completes answering 1 "r1" "org/app" "c1" "s1" 20 (raw_alert ∷ []) empty_db
      raw_alert (here refl) answers

abbrev origin : VerdictRow
origin = verdict_row "k1" "r0" cleared_doc (some true) none (some "s1") 0

abbrev judged : Database
judged = record empty_db { verdicts = origin ∷ [] }

ingest_one-IsReplay_example :
    IsReplay 1 80000 "r1" "k1" "s1" judged
      (ingest_one answering 1 "r1" "c1" "s1" 80000 raw_alert (judged, counters)).0
unfolding alert_key verdict_row ingest_one is_stage_complete dependabot_harness.Database.stage_row
    dependabot_harness.Prelude.Tables.find dependabot_harness.Stages.Ingest.gather
    dependabot_harness.Ecosystem.get_adapter dependabot_harness.Stages.Ingest.store
    dependabot_harness.Stages.Ingest.replay_candidate dependabot_harness.Database.latest_verdict
ingest_one-IsReplay_example =
    ingest_one-IsReplay answering 1 "r1" "c1" "s1" 80000 raw_alert judged counters refl refl

abbrev once : Database
once = (ingest_one answering 1 "r1" "c1" "s1" 80000 raw_alert (judged, counters)).0

-- Between the passes another alert gets a verdict.
abbrev changed : Database
changed = put_verdict "k9" "r1" cleared_doc none none none 90000 once

abbrev twice : Database
twice = (ingest_one answering 1 "r2" "c1" "s1" 160000 raw_alert (changed, counters)).0

two_passes : Passes answering 1 "s1" raw_alert judged 0 twice 160000
unfolding alert_key verdict_row ingest_one is_stage_complete dependabot_harness.Database.stage_row
    dependabot_harness.Prelude.Tables.find dependabot_harness.Stages.Ingest.gather
    dependabot_harness.Ecosystem.get_adapter dependabot_harness.Stages.Ingest.store
    dependabot_harness.Stages.Ingest.replay_candidate dependabot_harness.Database.latest_verdict
    dependabot_harness.Stages.Ingest.store_replay dependabot_harness.Database.record_stage
    dependabot_harness.Prelude.Tables.upsert put_verdict
    dependabot_harness.Database.Alerts.upsert_alert dependabot_harness.Database.at_stage
    dependabot_harness.Database.new_row dependabot_harness.Database.of_verdict
two_passes =
    pass "r2" "c1" 160000 counters
      (between changed (pass "r1" "c1" 80000 counters stop refl refl (omega arith) (omega arith))
        refl)
      refl refl (omega arith) (omega arith)

-- A limit of one day, and a verdict that is replayed at the age of nearly three.
verdict_never_expires_example :
    (row : VerdictRow) × (row.verdict ≡ cleared_doc) × IsFresh 1 240000 "k1" "s1" twice row
unfolding alert_key verdict_row dependabot_harness.Database.latest_verdict
verdict_never_expires_example =
    verdict_never_expires answering 1 "s1" raw_alert judged twice origin 160000 240000 refl refl
      ((λ m. omega arith), tt) two_passes (omega arith)
