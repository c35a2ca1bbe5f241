-- ===== src/Tests/Samples.antt =====
-- Concrete alerts, verdicts and databases for the tests.
use dependabot_harness.Prelude.{Bool, true, false, none, some, [], ◌∷◌, codes}
use dependabot_harness.Alert.{AlertRecord, open_state}
use dependabot_harness.Verdict.{VerdictName, VexStatus, vulnerable_code_not_present, VerdictDoc}
use dependabot_harness.Validation.{has_lines, Checkout}
use dependabot_harness.Policy.Context.{RepoFacts, RuleContext}
use dependabot_harness.Database.{Database}
use dependabot_harness.Emit.Dismissal.{DismissalGate}

abbrev pub go_alert : AlertRecord
go_alert = record {
  alert_key = "k1";
  repo = "org/app";
  ghsa_id = "GHSA-1";
  purl = codes "pkg:golang/example.com/lib@1.2.0";
  ecosystem = codes "go";
  manifest_path = codes "go.mod";
  gh_alert_num = 7;
  first_seen_at = 10;
  last_seen_at = 20;
  state = open_state;
  cve_id = none;
  resolved_ver = some (codes "1.2.0");
  patched_ver = some (codes "2.0.0");
  dep_scope = some "runtime";
  is_direct = some true;
  cvss_score = some 95000;
  severity = some "critical";
  epss_score = none;
  in_kev = some false;
  symbols = none;
}

-- The same package and manifest under a newer advisory, fixed later.
abbrev pub newer_alert : AlertRecord
newer_alert = record go_alert {
  alert_key = "k2";
  ghsa_id = "GHSA-2";
  patched_ver = some (codes "2.1.0");
  gh_alert_num = 8;
}

abbrev pub exploited_alert : AlertRecord
exploited_alert = record go_alert { in_kev = some true }

abbrev pub crate_alert : AlertRecord
crate_alert = record go_alert {
  purl = codes "pkg:cargo/lib@1.2.0";
  ecosystem = codes "cargo";
  dep_scope = some "development";
}

abbrev pub scanned_facts : RepoFacts
scanned_facts = record {
  import_index = λ e. record { scanned = true; modules = codes "fmt" ∷ []; files_scanned = 3 };
  production_build_targets = none;
  superseding_fix_for = λ a. none;
  shipped_packages = λ e. some (codes "example.com/other" ∷ []);
}

abbrev pub absent_context : RuleContext
absent_context = record { alert = go_alert; facts = scanned_facts }

abbrev pub exploited_context : RuleContext
exploited_context = record { alert = exploited_alert; facts = scanned_facts }

abbrev pub crate_context : RuleContext
crate_context = record { alert = crate_alert; facts = scanned_facts }

-- A verdict that the gate and the mechanical checks accept.
abbrev pub cleared_doc : VerdictDoc
cleared_doc = record {
  alert_key = "k1";
  verdict = some (some VerdictName.not_affected);
  vex_status = some VexStatus.not_affected;
  vex_justification = some vulnerable_code_not_present;
  reachability_confirmed = false;
  confidence = some 9000;
  production_reachable = some false;
  severity_adjusted = none;
  severity_rationale = none;
  evidence_cited = record { file = "main.go"; line = 12 } ∷ [];
  recommended_action = none;
  unknowns = [];
  needs_human = false;
  decided_by = some "judgment";
  rule_id = none;
  inherited_from = none;
  tool_calls_used = 2;
  ghsa_id = none;
  cve_id = none;
}

abbrev pub sample_checkout : Checkout
sample_checkout = λ path. has_lines 40

abbrev pub any_schema : VerdictDoc → Bool
any_schema doc = true

abbrev pub open_gate : DismissalGate
open_gate = record {
  enabled = true;
  requirements = record {
    verdict = some (some VerdictName.not_affected);
    confidence_min = some 8500;
    validator_agreed = some true;
  };
  coverage_complete = true;
}

abbrev pub empty_db : Database
empty_db = record {
  alerts = [];
  stage_results = [];
  verdicts = [];
  clusters = [];
  ledger = [];
  runs = [];
  snapshots = [];
  architecture = [];
  wishlist = [];
}

abbrev pub alert_db : Database
alert_db = record empty_db { alerts = go_alert ∷ [] }
