-- ===== src/Policy/Rules.antt =====
-- harness/policy/rules.py: one rule class for each kind, each with the shape of its outcome from
-- policy.yaml. A rule that cannot decide declines (`none`).
use dependabot_harness.Prelude.{
  ℕ, Bool, false, not, ◌||◌, String, Option, none, some, List, [], ◌∷◌, ◌++◌, Text, codes, any,
  contains, length, or_default, ltb, ◌==◌, text_eq, string_eq, Result, ok, err, ◌>>=◌,
  if◌then◌else◌,
}
use dependabot_harness.Alert.{Score}
use dependabot_harness.Verdict.{VerdictName, VexStatus, Justification}
use dependabot_harness.Version.Decide.{at_or_above, is_patch_level_bump}
use dependabot_harness.Util.{starts_with, purl_package_name}
use dependabot_harness.Ecosystem.{get_adapter, dev_scope_is_conclusive, development}
use dependabot_harness.Policy.Context.{
  OutcomeKind, verdict, escalate, skip_analysis, dedup, Detail, versions, superseded_by, kev,
  scope_conclusive, build_targets_checked, absent_package, RuleOutcome, RuleContext, any_prefix,
  build_scanner, supports_package_membership, normalize_package,
}

-- `ValueError` of the enum's constructor, and the engine's `PolicyError`.
pub data PolicyError : Type 0 where
  value_error policy_error : PolicyError

-- One entry of policy.yaml's `rules`.
pub record RuleSpec : Type 0 where
  pub id : String
  pub cvss_min : Option Score
  pub kind : Option String
  pub reason : Option String
  pub verdict : Option VerdictName
  pub vex_status : Option VexStatus
  pub vex_justification : Option Justification
  pub needs_human : Bool
  pub recommended_action : Option Text

-- `OutcomeKind(text)`
unfoldable pub outcome_kind : String → Result PolicyError OutcomeKind
outcome_kind text =
    if text == "verdict"
    then ok verdict
    else if text == "escalate"
    then ok escalate
    else if text == "skip_analysis"
    then ok skip_analysis
    else if text == "dedup"
    then ok dedup
    else err value_error

-- `Rule._outcome`, with the overrides that the rules pass.
unfoldable pub outcome :
    RuleSpec → Option String → Option Text → Detail → Result PolicyError (Option RuleOutcome)
unfolding outcome_kind
outcome spec reason action detail = outcome_kind (or_default spec.kind "verdict") >>= λ kind. ok (
    some (record {
      rule_id = spec.id;
      kind = kind;
      reason = or_default reason (or_default spec.reason spec.id);
      verdict = spec.verdict;
      vex_status = spec.vex_status;
      vex_justification = spec.vex_justification;
      needs_human = spec.needs_human;
      recommended_action = elim action [ none ↦ spec.recommended_action | some a ↦ some a ];
      detail = detail;
    }))

abbrev pub decline : Result PolicyError (Option RuleOutcome)
decline = ok none

abbrev pub Evaluate : Type 0
Evaluate = RuleSpec → RuleContext → Result PolicyError (Option RuleOutcome)

unfoldable pub already_fixed : Evaluate
already_fixed spec ctx = elim (at_or_above ctx.alert.resolved_ver ctx.alert.patched_ver) [
  | none ↦ decline
  | some decided ↦
      if decided
      then outcome spec none none (versions ctx.alert.resolved_ver ctx.alert.patched_ver)
      else decline
]

-- `a or b` on optional strings: an empty string is as good as none.
unfoldable pub text_or : Option Text → Option Text → Option Text
text_or none b = b
text_or (some []) b = b
text_or (some (c ∷ s)) b = some (c ∷ s)

unfoldable pub upgrade_action : Text → Option Text → String → Text
unfolding text_or
upgrade_action purl target ghsa =
    codes "upgrade "
    ++ (purl
        ++ (codes " to "
            ++ (or_default (text_or target (some (codes "a patched version"))) []
                ++ (codes "; the newer advisory "
                    ++ (codes ghsa
                        ++ codes " for the same package is fixed by the same upgrade")))))

unfoldable pub superseded : Evaluate
superseded spec ctx = elim (ctx.facts.superseding_fix_for ctx.alert) [
  | none ↦ decline
  | some fix ↦
      let target = text_or fix.patched_version ctx.alert.patched_ver in
      outcome spec none (some (upgrade_action ctx.alert.purl target fix.ghsa_id))
        (superseded_by fix.ghsa_id target)
]

-- `x is True`
abbrev pub is_true : Option Bool → Bool
is_true none = false
is_true (some b) = b

abbrev pub at_least : Score → Option Score → Bool
at_least threshold none = false
at_least threshold (some score) = not (ltb score threshold)

unfoldable pub kev_direct_critical : Evaluate
kev_direct_critical spec ctx =
    let threshold = or_default spec.cvss_min 90000 in
    if not (is_true ctx.alert.in_kev) || not (is_true ctx.alert.is_direct)
    then decline
    else if at_least threshold ctx.alert.cvss_score
    then outcome spec none none (kev ctx.alert.cvss_score)
    else decline

unfoldable pub conclusive : Text → Bool
unfolding get_adapter dev_scope_is_conclusive
conclusive ecosystem = elim (get_adapter ecosystem) [
  | none ↦ false
  | some a ↦ dev_scope_is_conclusive a
]

abbrev pub is_development : Option String → Bool
is_development none = false
is_development (some scope) = scope == development

unfoldable pub dev_only : Evaluate
dev_only spec ctx =
    let alert = ctx.alert in
    if not (is_development alert.dep_scope)
    then decline
    else elim ctx.facts.production_build_targets [
      | none ↦
          if conclusive alert.ecosystem
          then outcome spec (some "dev_scope_excluded_from_artifact_by_build_system") none
              (scope_conclusive alert.dep_scope)
          else decline
      | some targets ↦
          if contains targets alert.purl || contains targets alert.manifest_path
          then decline
          else outcome spec none none (build_targets_checked (length targets))
    ]

-- `_ships_together`
unfoldable pub ships_together : Text → Text → Bool
unfolding starts_with
ships_together pkg shipped =
    pkg == shipped
    || (starts_with pkg (shipped ++ b'/' ∷ []) || starts_with shipped (pkg ++ b'/' ∷ []))

-- The end of `NotImportedRule.evaluate`, where the index has answered False.
unfoldable pub check_artifact :
    RuleSpec → Text → ℕ → Option (List Text) → Result PolicyError (Option RuleOutcome)
check_artifact spec pkg files none = decline
check_artifact spec pkg files (some shipped) =
    if any (ships_together pkg) shipped
    then decline
    else outcome spec none none (absent_package pkg files (length shipped))

-- The middle: the index and what it says of the package.
unfoldable pub check_index : RuleSpec → RuleContext → Text → Result PolicyError (Option RuleOutcome)
unfolding check_artifact any_prefix
check_index spec ctx [] = decline
check_index spec ctx (c ∷ s) =
    let pkg = c ∷ s in
    let index = ctx.facts.import_index ctx.alert.ecosystem in
    if not index.scanned then decline else elim (any_prefix index pkg) [
      | none ↦ decline
      | some found ↦
          if found
          then decline
          else check_artifact spec pkg index.files_scanned
              (ctx.facts.shipped_packages ctx.alert.ecosystem)
    ]

unfoldable pub not_imported : Evaluate
not_imported spec ctx = elim (build_scanner ctx.alert.ecosystem) [
  | none ↦ decline
  | some scanner ↦
      if not (supports_package_membership scanner)
      then decline
      else check_index spec ctx (normalize_package scanner (purl_package_name ctx.alert.purl))
]

unfoldable pub trivial_patch : Evaluate
trivial_patch spec ctx = elim (is_patch_level_bump ctx.alert.resolved_ver ctx.alert.patched_ver) [
  | none ↦ decline
  | some bump ↦
      if bump
      then outcome spec none none (versions ctx.alert.resolved_ver ctx.alert.patched_ver)
      else decline
]
