-- ===== src/Stages/Evidence.antt =====
-- harness/stages/evidence.py with harness/evidence/bundle.py: what the tools found for each alert. The
-- checkout with its tools is an argument, and so is the schema, whose violation ends the stage. A
-- bundle's payload is its clamped result; the snippets of its call sites are left out.
pub mod Requeue
pub mod Shallow
use dependabot_harness.Prelude.{
  ℕ, ◌+◌, Bool, true, false, not, ◌&&◌, ◌||◌, String, Option, none, some, List, [], ◌∷◌, ◌++◌,
  filter, any, all, take, length, ltb, leb, if◌then◌else◌, Result, ok, err, is_some,
}
use dependabot_harness.Alert.{AlertRecord, symbols_known}
use dependabot_harness.Ecosystem.{
  Adapter, get_adapter, ReachabilityResult, failed_result, is_failure, clamp, level_value,
}
use dependabot_harness.Database.{
  Database, SnapshotRow, Status, done, skipped, failed, Stage, policy, dedup, evidence, StageWrite,
  stage_write, bundle, record_stage, stage_status, is_stage_complete, alerts_for_repo,
}
use dependabot_harness.Stages.Recon.{last_snapshot}

pub record EvidenceBundle : Type 0 where
  pub reachability : ReachabilityResult
  pub symbols_known : Bool

abbrev max_call_sites : ℕ
max_call_sites = 15

-- `EvidenceBuilder.build`
unfoldable pub build : Adapter → AlertRecord → ReachabilityResult → EvidenceBundle
build adapter alert result =
    let clamped = clamp adapter result (symbols_known alert) in
    let truncated = ltb max_call_sites (length clamped.call_sites) in
    record {
      reachability = record clamped {
        call_sites = take max_call_sites clamped.call_sites;
        truncated = truncated || clamped.truncated;
      };
      symbols_known = symbols_known alert;
    }

abbrev pub toolchain_failed : EvidenceBundle → Bool
toolchain_failed b = is_failure b.reachability

abbrev has_sites : EvidenceBundle → Bool
has_sites b = ltb 0 (length b.reachability.call_sites)

abbrev is_referenced : EvidenceBundle → Bool
is_referenced b = leb 3 (level_value b.reachability.level)

-- `is_shallow`
unfoldable pub is_shallow : List EvidenceBundle → Bool
is_shallow [] = false
is_shallow (b ∷ bs) =
    let ran = filter (λ x. not (toolchain_failed x)) (b ∷ bs) in
    let measurable = filter (λ (x : EvidenceBundle). x.symbols_known) ran in
    if all toolchain_failed (b ∷ bs)
    then true
    else if any has_sites ran
    then false
    else if leb (length measurable) 0
    then false
    else not (any is_referenced measurable)

pub record RepoEvidenceResult : Type 0 where
  pub analyzed : ℕ
  pub failed_toolchain : ℕ
  pub unsupported : ℕ
  pub shallow : Bool

pub record EvidenceState : Type 0 where
  pub db : Database
  pub bundles : List EvidenceBundle
  pub result : RepoEvidenceResult

-- `adapter.reachability` in a checkout, or the text of what it raises.
abbrev pub Tools : Type 0
Tools = Adapter → AlertRecord → Result String ReachabilityResult

abbrev is_status : Status → Option Status → Bool
is_status done (some done) = true
is_status skipped (some skipped) = true
is_status _ _ = false

-- `_needs_evidence`
unfoldable pub needs_evidence : String → Database → AlertRecord → Bool
needs_evidence run db alert =
    if is_stage_complete db run alert.alert_key evidence
    then false
    else if is_status skipped (stage_status db run alert.alert_key dedup)
    then false
    else is_status done (stage_status db run alert.alert_key policy)

unfoldable pub pending : String → String → Database → List AlertRecord
unfolding needs_evidence
pending run repo db = filter (needs_evidence run db) (alerts_for_repo db repo)

-- `_reachability`
unfoldable pub reachability : Option Tools → Adapter → AlertRecord → ReachabilityResult
reachability none eco alert = failed_result "checkout"
reachability (some tools) eco alert = elim (tools eco alert) [
  | ok result ↦ result
  | err e ↦ failed_result e
]

abbrev pub failed_with : String → StageWrite
failed_with error = record (stage_write failed none) { error = some error }

abbrev count_analyzed : EvidenceBundle → RepoEvidenceResult → RepoEvidenceResult
count_analyzed b r = record r {
  analyzed = r.analyzed + 1;
  failed_toolchain = (if toolchain_failed b then r.failed_toolchain + 1 else r.failed_toolchain);
}

-- The body of the loop; `err` has the database at an exception.
unfoldable pub evidence_one :
    (EvidenceBundle → Bool)
    → Option Tools
    → String
    → ℕ
    → AlertRecord
    → EvidenceState
    → Result Database EvidenceState
unfolding build reachability
evidence_one valid tools run now alert s = elim (get_adapter alert.ecosystem) [
  | none ↦ ok (record {
    db =
        record_stage run alert.alert_key evidence (failed_with "no adapter for ecosystem") now s.db;
    bundles = s.bundles;
    result = record s.result { unsupported = s.result.unsupported + 1 };
  })
  | some adapter ↦
      let b = build adapter alert (reachability tools adapter alert) in
      let stored =
        record_stage run alert.alert_key evidence (stage_write done (some (bundle b.reachability)))
          now s.db in
      if valid b
      then ok (record {
        db = stored;
        bundles = s.bundles ++ b ∷ [];
        result = count_analyzed b s.result;
      })
      else err s.db
]

unfoldable pub evidence_all :
    (EvidenceBundle → Bool)
    → Option Tools
    → String
    → ℕ
    → List AlertRecord
    → EvidenceState
    → Result Database EvidenceState
unfolding evidence_one
evidence_all valid tools run now [] s = ok s
evidence_all valid tools run now (alert ∷ alerts) s =
    elim (evidence_one valid tools run now alert s) [
      | err db ↦ err db
      | ok next ↦ evidence_all valid tools run now alerts next
    ]

abbrev pub shallow_error : String
shallow_error = "shallow: repo produced no reachable evidence across all alerts"

-- `_requeue`; the error has a fixed text for the reason.
unfoldable pub requeue : String → ℕ → List AlertRecord → Database → Database
requeue run now [] db = db
requeue run now (alert ∷ alerts) db =
    requeue run now alerts
      (record_stage run alert.alert_key evidence (failed_with shallow_error) now db)

-- `_checkout`
unfoldable pub checkout_of :
    (String → String → Result String Tools) → String → Database → Option Tools
checkout_of ensure repo db = elim (last_snapshot db repo) [
  | none ↦ none
  | some snapshot ↦ elim (ensure repo snapshot.commit_sha) [ ok tools ↦ some tools | err e ↦ none ]
]

abbrev pub begin_evidence : Database → EvidenceState
begin_evidence db = record {
  db = db;
  bundles = [];
  result = record { analyzed = 0; failed_toolchain = 0; unsupported = 0; shallow = false };
}

-- What follows the loop.
unfoldable pub finish_evidence :
    String → ℕ → List AlertRecord → EvidenceState → RepoEvidenceResult × Database
finish_evidence run now alerts s =
    let shallow = is_shallow s.bundles in
    (record s.result { shallow = shallow }, if shallow then requeue run now alerts s.db else s.db)

-- `run_repo`; with nothing pending the loop and what follows it change nothing.
unfoldable pub evidence_repo :
    (EvidenceBundle → Bool)
    → (String → String → Result String Tools)
    → String
    → String
    → ℕ
    → Database
    → Result Database (RepoEvidenceResult × Database)
unfolding evidence_all
evidence_repo valid ensure run repo now db =
    let alerts = pending run repo db in
    elim (evidence_all valid (checkout_of ensure repo db) run now alerts (begin_evidence db)) [
      | err after ↦ err after
      | ok s ↦ ok (finish_evidence run now alerts s)
    ]

-- What is on the disk afterwards, also where the pass raises.
abbrev pub database_after : Result Database (RepoEvidenceResult × Database) → Database
database_after (err after) = after
database_after (ok (result, after)) = after
