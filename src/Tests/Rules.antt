-- ===== src/Tests/Rules.antt =====
-- The policy rules and the confidence ceiling at concrete alerts.
use dependabot_harness.Prelude.{
  ◌+◌, ◌≤◌, ◌≡◌, refl, ◌⊎◌, ◌≢◌, true, false, none, some, [], ◌∷◌, codes, length, ok,
}
use dependabot_harness.Verdict.{
  VerdictName, VexStatus, vulnerable_code_not_present, component_not_present,
}
use dependabot_harness.Ecosystem.{
  Adapter, npm_adapter, ReachabilityResult, symbol_referenced, clamp, level_value,
  confidence_ceiling, is_failure,
}
use dependabot_harness.Ecosystem.Clamp.{clamp_bounds}
use dependabot_harness.Policy.Context.{
  OutcomeKind, Detail, absent_package, scope_conclusive, RuleOutcome, SupersedingFix, RuleContext,
  is_clearance,
}
use dependabot_harness.Policy.Rules.{dev_only, not_imported}
use dependabot_harness.Policy.Engine.{
  evaluate, fresh_stats, terminated, decided_affected, cleared, reaching_analysis,
}
use dependabot_harness.Policy.Facts.{superseding_fix_for}
use dependabot_harness.Policy.Facts.Highest.{IsHighestFix, superseding_fix_for_lem}
use dependabot_harness.Policy.Clearance.{IsAbsent, IsDevOnly}
use dependabot_harness.Policy.Soundness.{IsSound, Decides, evaluate-IsSound}
use dependabot_harness.Policy.Accounting.{run, outcomes_where, run_accounts}
use dependabot_harness.Policy.Default.{
  absent_spec, dev_spec, default_engine, IsKevCritical, kev_outcome, default_clears,
  default_escalates,
}
use dependabot_harness.Tests.Samples.{
  go_alert, newer_alert, absent_context, exploited_context, crate_context,
}

abbrev absent_outcome : RuleOutcome
absent_outcome = record {
  rule_id = "not_imported";
  kind = OutcomeKind.verdict;
  reason = "package_never_imported";
  verdict = some VerdictName.not_affected;
  vex_status = some VexStatus.not_affected;
  vex_justification = some vulnerable_code_not_present;
  needs_human = false;
  recommended_action = none;
  detail = absent_package (codes "example.com/lib") 3 1;
}

abbrev dev_outcome : RuleOutcome
dev_outcome = record absent_outcome {
  rule_id = "dev_only";
  reason = "dev_scope_excluded_from_artifact_by_build_system";
  vex_justification = some component_not_present;
  detail = scope_conclusive (some "development");
}

absent_run : (evaluate default_engine absent_context fresh_stats).0 ≡ ok (some absent_outcome)
unfolding dependabot_harness.Policy.Engine.first_outcome
    dependabot_harness.Policy.Engine.evaluate_type dependabot_harness.Policy.Engine.evaluate
    dependabot_harness.Policy.Engine.settle dependabot_harness.Policy.Engine.validate
    dependabot_harness.Policy.Engine.record_outcome dependabot_harness.Policy.Engine.increment
    dependabot_harness.Policy.Rules.already_fixed
    dependabot_harness.Policy.Rules.kev_direct_critical dependabot_harness.Policy.Rules.dev_only
    dependabot_harness.Policy.Rules.not_imported dependabot_harness.Policy.Rules.check_index
    dependabot_harness.Policy.Rules.check_artifact dependabot_harness.Policy.Rules.outcome
    dependabot_harness.Policy.Rules.outcome_kind dependabot_harness.Policy.Rules.conclusive
    dependabot_harness.Policy.Rules.ships_together dependabot_harness.Policy.Context.build_scanner
    dependabot_harness.Policy.Context.supports_package_membership
    dependabot_harness.Policy.Context.normalize_package dependabot_harness.Policy.Context.any_prefix
    dependabot_harness.Util.purl_package_name dependabot_harness.Util.after_last
    dependabot_harness.Util.before_last dependabot_harness.Util.starts_with
    dependabot_harness.Ecosystem.get dependabot_harness.Ecosystem.get_adapter
    dependabot_harness.Ecosystem.resolve_alias dependabot_harness.Ecosystem.dev_scope_is_conclusive
    dependabot_harness.Version.Decide.at_or_above dependabot_harness.Version.Decide.decide_both
    dependabot_harness.Version.Decide.is_patch_level_bump
    dependabot_harness.Version.Decide.patch_level dependabot_harness.Version.Parse.try_parse
    dependabot_harness.Version.Parse.parse dependabot_harness.Version.Parse.lower
    dependabot_harness.Version.Parse.lstrip dependabot_harness.Version.Parse.rstrip
    dependabot_harness.Version.Parse.strip dependabot_harness.Version.Parse.partition
    dependabot_harness.Version.Parse.split dependabot_harness.Version.Parse.span_digits
    dependabot_harness.Version.Parse.read_segment dependabot_harness.Version.Parse.read_release
    dependabot_harness.Version.Parse.to_int dependabot_harness.Version.padded
    dependabot_harness.Version.key dependabot_harness.Version.lt_version
    dependabot_harness.Version.ge_version dependabot_harness.Version.gt_version
    dependabot_harness.Version.le_version dependabot_harness.Version.eq_version
absent_run = refl

-- A known-exploited critical alert on an indirect dependency is cleared by the same rule.
abbrev indirect_context : RuleContext
indirect_context = record {
  alert = record go_alert { in_kev = some true; is_direct = some false };
  facts = absent_context.facts;
}

indirect_cleared :
    (evaluate default_engine indirect_context fresh_stats).0 ≡ ok (some absent_outcome)
unfolding dependabot_harness.Policy.Engine.first_outcome
    dependabot_harness.Policy.Engine.evaluate_type dependabot_harness.Policy.Engine.evaluate
    dependabot_harness.Policy.Engine.settle dependabot_harness.Policy.Engine.validate
    dependabot_harness.Policy.Engine.record_outcome dependabot_harness.Policy.Engine.increment
    dependabot_harness.Policy.Rules.already_fixed
    dependabot_harness.Policy.Rules.kev_direct_critical dependabot_harness.Policy.Rules.dev_only
    dependabot_harness.Policy.Rules.not_imported dependabot_harness.Policy.Rules.check_index
    dependabot_harness.Policy.Rules.check_artifact dependabot_harness.Policy.Rules.outcome
    dependabot_harness.Policy.Rules.outcome_kind dependabot_harness.Policy.Rules.conclusive
    dependabot_harness.Policy.Rules.ships_together dependabot_harness.Policy.Context.build_scanner
    dependabot_harness.Policy.Context.supports_package_membership
    dependabot_harness.Policy.Context.normalize_package dependabot_harness.Policy.Context.any_prefix
    dependabot_harness.Util.purl_package_name dependabot_harness.Util.after_last
    dependabot_harness.Util.before_last dependabot_harness.Util.starts_with
    dependabot_harness.Ecosystem.get dependabot_harness.Ecosystem.get_adapter
    dependabot_harness.Ecosystem.resolve_alias dependabot_harness.Ecosystem.dev_scope_is_conclusive
    dependabot_harness.Version.Decide.at_or_above dependabot_harness.Version.Decide.decide_both
    dependabot_harness.Version.Decide.is_patch_level_bump
    dependabot_harness.Version.Decide.patch_level dependabot_harness.Version.Parse.try_parse
    dependabot_harness.Version.Parse.parse dependabot_harness.Version.Parse.lower
    dependabot_harness.Version.Parse.lstrip dependabot_harness.Version.Parse.rstrip
    dependabot_harness.Version.Parse.strip dependabot_harness.Version.Parse.partition
    dependabot_harness.Version.Parse.split dependabot_harness.Version.Parse.span_digits
    dependabot_harness.Version.Parse.read_segment dependabot_harness.Version.Parse.read_release
    dependabot_harness.Version.Parse.to_int dependabot_harness.Version.padded
    dependabot_harness.Version.key dependabot_harness.Version.lt_version
    dependabot_harness.Version.ge_version dependabot_harness.Version.gt_version
    dependabot_harness.Version.le_version dependabot_harness.Version.eq_version
indirect_cleared = refl

evaluate-IsSound_example :
    IsSound default_engine.valid_justifications absent_outcome
    × Decides default_engine.rules absent_context absent_outcome
evaluate-IsSound_example =
    evaluate-IsSound default_engine absent_context fresh_stats absent_outcome absent_run

default_clears_example :
    (IsDevOnly absent_context ⊎ IsAbsent absent_context) × ¬ IsKevCritical absent_context
default_clears_example = default_clears absent_context fresh_stats absent_outcome absent_run refl

not_fixed :
    dependabot_harness.Version.Decide.at_or_above exploited_context.alert.resolved_ver
      exploited_context.alert.patched_ver
    ≢ some true
unfolding dependabot_harness.Version.Decide.at_or_above
    dependabot_harness.Version.Decide.decide_both
    dependabot_harness.Version.Decide.is_patch_level_bump
    dependabot_harness.Version.Decide.patch_level dependabot_harness.Version.Parse.try_parse
    dependabot_harness.Version.Parse.parse dependabot_harness.Version.Parse.lower
    dependabot_harness.Version.Parse.lstrip dependabot_harness.Version.Parse.rstrip
    dependabot_harness.Version.Parse.strip dependabot_harness.Version.Parse.partition
    dependabot_harness.Version.Parse.split dependabot_harness.Version.Parse.span_digits
    dependabot_harness.Version.Parse.read_segment dependabot_harness.Version.Parse.read_release
    dependabot_harness.Version.Parse.to_int dependabot_harness.Version.padded
    dependabot_harness.Version.key dependabot_harness.Version.lt_version
    dependabot_harness.Version.ge_version dependabot_harness.Version.gt_version
    dependabot_harness.Version.le_version dependabot_harness.Version.eq_version
not_fixed h = cc h

default_escalates_example :
    (evaluate default_engine exploited_context fresh_stats).0
    ≡ ok (some (kev_outcome exploited_context))
default_escalates_example =
    default_escalates exploited_context fresh_stats (refl, refl, refl) not_fixed

absent_decided : not_imported absent_spec absent_context ≡ ok (some absent_outcome)
unfolding dependabot_harness.Policy.Engine.first_outcome
    dependabot_harness.Policy.Engine.evaluate_type dependabot_harness.Policy.Engine.evaluate
    dependabot_harness.Policy.Engine.settle dependabot_harness.Policy.Engine.validate
    dependabot_harness.Policy.Engine.record_outcome dependabot_harness.Policy.Engine.increment
    dependabot_harness.Policy.Rules.already_fixed
    dependabot_harness.Policy.Rules.kev_direct_critical dependabot_harness.Policy.Rules.dev_only
    dependabot_harness.Policy.Rules.not_imported dependabot_harness.Policy.Rules.check_index
    dependabot_harness.Policy.Rules.check_artifact dependabot_harness.Policy.Rules.outcome
    dependabot_harness.Policy.Rules.outcome_kind dependabot_harness.Policy.Rules.conclusive
    dependabot_harness.Policy.Rules.ships_together dependabot_harness.Policy.Context.build_scanner
    dependabot_harness.Policy.Context.supports_package_membership
    dependabot_harness.Policy.Context.normalize_package dependabot_harness.Policy.Context.any_prefix
    dependabot_harness.Util.purl_package_name dependabot_harness.Util.after_last
    dependabot_harness.Util.before_last dependabot_harness.Util.starts_with
    dependabot_harness.Ecosystem.get dependabot_harness.Ecosystem.get_adapter
    dependabot_harness.Ecosystem.resolve_alias dependabot_harness.Ecosystem.dev_scope_is_conclusive
absent_decided = refl

dev_decided : dev_only dev_spec crate_context ≡ ok (some dev_outcome)
unfolding dependabot_harness.Policy.Engine.first_outcome
    dependabot_harness.Policy.Engine.evaluate_type dependabot_harness.Policy.Engine.evaluate
    dependabot_harness.Policy.Engine.settle dependabot_harness.Policy.Engine.validate
    dependabot_harness.Policy.Engine.record_outcome dependabot_harness.Policy.Engine.increment
    dependabot_harness.Policy.Rules.already_fixed
    dependabot_harness.Policy.Rules.kev_direct_critical dependabot_harness.Policy.Rules.dev_only
    dependabot_harness.Policy.Rules.not_imported dependabot_harness.Policy.Rules.check_index
    dependabot_harness.Policy.Rules.check_artifact dependabot_harness.Policy.Rules.outcome
    dependabot_harness.Policy.Rules.outcome_kind dependabot_harness.Policy.Rules.conclusive
    dependabot_harness.Policy.Rules.ships_together dependabot_harness.Policy.Context.build_scanner
    dependabot_harness.Policy.Context.supports_package_membership
    dependabot_harness.Policy.Context.normalize_package dependabot_harness.Policy.Context.any_prefix
    dependabot_harness.Util.purl_package_name dependabot_harness.Util.after_last
    dependabot_harness.Util.before_last dependabot_harness.Util.starts_with
    dependabot_harness.Ecosystem.get dependabot_harness.Ecosystem.get_adapter
    dependabot_harness.Ecosystem.resolve_alias dependabot_harness.Ecosystem.dev_scope_is_conclusive
dev_decided = refl

run_accounts_example :
    let s = run default_engine (absent_context ∷ exploited_context ∷ []) fresh_stats in
    (s.total ≡ length (absent_context ∷ exploited_context ∷ []))
    × (terminated s
        ≡ outcomes_where default_engine (λ o. true) (absent_context ∷ exploited_context ∷ []))
    × (cleared s
        ≡ outcomes_where default_engine is_clearance (absent_context ∷ exploited_context ∷ []))
    × (decided_affected s + cleared s ≡ terminated s)
    × (terminated s + reaching_analysis s ≡ s.total)
run_accounts_example = run_accounts default_engine (absent_context ∷ exploited_context ∷ [])

abbrev newer_fix : SupersedingFix
newer_fix = record { ghsa_id = "GHSA-2"; patched_version = some (codes "2.1.0") }

found_fix : superseding_fix_for (go_alert ∷ newer_alert ∷ []) go_alert ≡ some newer_fix
unfolding dependabot_harness.Policy.Facts.sibling dependabot_harness.Policy.Facts.candidate_of
    dependabot_harness.Policy.Facts.candidates dependabot_harness.Policy.Facts.above
    dependabot_harness.Policy.Facts.better dependabot_harness.Policy.Facts.greatest
    dependabot_harness.Policy.Facts.patch_text dependabot_harness.Policy.Facts.choose
    dependabot_harness.Policy.Facts.superseding_fix_for
    dependabot_harness.Version.Decide.at_or_above dependabot_harness.Version.Decide.decide_both
    dependabot_harness.Version.Decide.is_patch_level_bump
    dependabot_harness.Version.Decide.patch_level dependabot_harness.Version.Parse.try_parse
    dependabot_harness.Version.Parse.parse dependabot_harness.Version.Parse.lower
    dependabot_harness.Version.Parse.lstrip dependabot_harness.Version.Parse.rstrip
    dependabot_harness.Version.Parse.strip dependabot_harness.Version.Parse.partition
    dependabot_harness.Version.Parse.split dependabot_harness.Version.Parse.span_digits
    dependabot_harness.Version.Parse.read_segment dependabot_harness.Version.Parse.read_release
    dependabot_harness.Version.Parse.to_int dependabot_harness.Version.padded
    dependabot_harness.Version.key dependabot_harness.Version.lt_version
    dependabot_harness.Version.ge_version dependabot_harness.Version.gt_version
    dependabot_harness.Version.le_version dependabot_harness.Version.eq_version
found_fix = refl

superseding_fix_for_lem_example : IsHighestFix (go_alert ∷ newer_alert ∷ []) go_alert newer_fix
superseding_fix_for_lem_example =
    superseding_fix_for_lem (go_alert ∷ newer_alert ∷ []) go_alert newer_fix found_fix

abbrev npm_result : ReachabilityResult
npm_result = record {
  level = symbol_referenced;
  confidence = 8000;
  method = "grep";
  tool_version = "1";
  call_sites = [];
  dependency_path = [];
  truncated = false;
  error = none;
}

clamp_bounds_example :
    (level_value (clamp npm_adapter npm_result false).level ≤ level_value npm_result.level)
    × ((clamp npm_adapter npm_result false).confidence ≤ confidence_ceiling npm_adapter)
    × ((clamp npm_adapter npm_result false).confidence ≤ npm_result.confidence)
    × (is_failure (clamp npm_adapter npm_result false) ≡ is_failure npm_result)
    × (is_failure npm_result ≡ true → (clamp npm_adapter npm_result false).confidence ≡ 0)
    × (is_failure npm_result ≡ false
        → false ≡ false
        → (level_value (clamp npm_adapter npm_result false).level ≤ 2)
          × ((clamp npm_adapter npm_result false).confidence ≤ 5000))
clamp_bounds_example = clamp_bounds npm_adapter npm_result false
