-- ===== src/Stages/Policy.antt =====
-- harness/stages/policy.py: the stage that writes down what a deterministic rule decided.
use dependabot_harness.Prelude.{
  ℕ, Bool, true, false, not, ◌&&◌, String, Option, none, some, [], ◌∷◌, ◌++◌, Text, codes, text_eq,
  Result, ok, err, if◌then◌else◌,
}
use dependabot_harness.Alert.{AlertRecord}
use dependabot_harness.Verdict.{VerdictName, VerdictDoc}
use dependabot_harness.Database.{
  Database, ingest, policy, done, skipped, no_rule_matched, rule_outcome, stage_write, record_stage,
  is_stage_complete, put_verdict,
}
use dependabot_harness.Policy.Context.{RuleOutcome, RepoFacts}
use dependabot_harness.Policy.Rules.{PolicyError}
use dependabot_harness.Policy.Engine.{
  PolicyEngine, ClearanceStats, evaluate, has_verdict, is_dedup, is_affected, policy_confidence,
}

abbrev is_fixed : Option VerdictName → Bool
is_fixed (some VerdictName.fixed) = true
is_fixed _ = false

bump_action : AlertRecord → Option Text → Bool → Text
bump_action alert (some (c ∷ s)) true = codes "bump " ++ (alert.purl ++ (codes " to " ++ (c ∷ s)))
bump_action alert patched decided = codes "no action"

derived_action : AlertRecord → RuleOutcome → Text
unfolding bump_action
derived_action alert o =
    if is_fixed o.verdict
    then codes "no action: resolved version already at or above patched version"
    else bump_action alert alert.patched_ver (is_affected o.verdict)

-- `_recommended_action`: the rule's own remedy when it has one.
recommended_action : AlertRecord → RuleOutcome → Text
unfolding derived_action
recommended_action alert o = elim o.recommended_action [
  | none ↦ derived_action alert o
  | some action ↦ elim action [ [] ↦ derived_action alert o | c ∷ s ↦ c ∷ s ]
]

-- `_verdict_document`; the constant `threat_model` is left out.
unfoldable pub verdict_document : AlertRecord → RuleOutcome → VerdictDoc
unfolding recommended_action
verdict_document alert o = record {
  alert_key = alert.alert_key;
  verdict = some o.verdict;
  vex_status = o.vex_status;
  vex_justification = o.vex_justification;
  reachability_confirmed = false;
  confidence = some (policy_confidence alert.ecosystem);
  production_reachable = some (is_affected o.verdict);
  severity_adjusted = alert.severity;
  severity_rationale =
      some (codes "deterministic rule " ++ (codes o.rule_id ++ (codes ": " ++ codes o.reason)));
  evidence_cited = [];
  recommended_action = some (recommended_action alert o);
  unknowns = [];
  needs_human = o.needs_human;
  decided_by = some "policy";
  rule_id = some o.rule_id;
  inherited_from = none;
  tool_calls_used = 0;
  ghsa_id = none;
  cve_id = none;
}

-- `_record`
unfoldable pub record_outcome :
    String → AlertRecord → Option RuleOutcome → Option String → ℕ → Database → Database
record_outcome run alert none hash now db =
    record_stage run alert.alert_key policy (stage_write done (some no_rule_matched)) now db
record_outcome run alert (some o) hash now db =
    let staged =
      record_stage run alert.alert_key policy (stage_write skipped (some (rule_outcome o))) now
        db in
    if not (is_dedup o.kind) && has_verdict o.verdict
    then put_verdict alert.alert_key run (verdict_document alert o) none none hash now staged
    else staged

-- `_needs_policy`, without the recount of a resumed alert.
pub needs_policy : Database → String → AlertRecord → Bool
needs_policy db run alert =
    not (is_stage_complete db run alert.alert_key policy)
    && is_stage_complete db run alert.alert_key ingest

-- The body of the loop in `run_repo`; a PolicyError ends the run with the statistics as they are.
unfoldable pub run_alert :
    PolicyEngine
    → RepoFacts
    → String
    → Option String
    → ℕ
    → AlertRecord
    → Database × ClearanceStats
    → Result PolicyError Database × ClearanceStats
run_alert engine facts run hash now alert (db, stats) =
    let (found, stats') = evaluate engine (record { alert = alert; facts = facts }) stats in
    (elim found [ err e ↦ err e | ok o ↦ ok (record_outcome run alert o hash now db) ], stats')
