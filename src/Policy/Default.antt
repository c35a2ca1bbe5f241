-- ===== src/Policy/Default.antt =====
-- The policy that the repository ships, config/policy.yaml, and what its order of rules means:
-- only measured facts clear an alert, and no heuristic clears a known-exploited critical one.
use dependabot_harness.Prelude.{
  ℕ, ◌+◌, ◌≡◌, refl, ap, ◌∙◌, ◌≢◌, ◌⊎◌, inl, inr, true, false, none, some, List, [], ◌∷◌, arith, ok,
  Result-cases, Option-cases, drop,
}
use dependabot_harness.Verdict.{
  VerdictName, VexStatus, component_not_present, vulnerable_code_not_present,
  vulnerable_code_not_in_execute_path, vulnerable_code_cannot_be_controlled_by_adversary,
  inline_mitigations_already_exist,
}
use dependabot_harness.Version.Decide.{at_or_above}
use dependabot_harness.Policy.Context.{OutcomeKind, Detail, RuleOutcome, RuleContext}
use dependabot_harness.Policy.Rules.{
  RuleSpec, outcome, is_true, at_least, already_fixed, kev_direct_critical,
}
use dependabot_harness.Policy.Engine.{
  PolicyEngine, Rule, build, evaluate_type, first_outcome, evaluate, settle, already_fixed_rule,
  superseded_rule, kev_direct_critical_rule, dev_only_rule, not_imported_rule, trivial_patch_rule,
  validate, ClearanceStats,
}
use dependabot_harness.Policy.Clearance.{
  IsAbsent, IsDevOnly, already_fixed_lem, superseded-Copies, kev_direct_critical-Copies,
  trivial_patch_lem, dev_only_lem, not_imported_lem,
}
use dependabot_harness.Policy.Soundness.{settle_lem}

abbrev pub fixed_spec : RuleSpec
fixed_spec = record {
  id = "already_fixed";
  cvss_min = none;
  kind = some "verdict";
  reason = some "resolved_version_at_or_above_patched";
  verdict = some VerdictName.fixed;
  vex_status = some VexStatus.fixed;
  vex_justification = none;
  needs_human = false;
  recommended_action = none;
}

abbrev pub kev_spec : RuleSpec
kev_spec = record {
  id = "kev_direct_critical";
  cvss_min = some 90000;
  kind = some "escalate";
  reason = some "kev_direct_critical";
  verdict = some VerdictName.affected;
  vex_status = some VexStatus.affected;
  vex_justification = none;
  needs_human = true;
  recommended_action = none;
}

abbrev pub dev_spec : RuleSpec
dev_spec = record {
  id = "dev_only";
  cvss_min = none;
  kind = some "verdict";
  reason = some "dev_scope_not_in_production_build";
  verdict = some VerdictName.not_affected;
  vex_status = some VexStatus.not_affected;
  vex_justification = some component_not_present;
  needs_human = false;
  recommended_action = none;
}

abbrev pub absent_spec : RuleSpec
absent_spec = record {
  id = "not_imported";
  cvss_min = none;
  kind = some "verdict";
  reason = some "package_never_imported";
  verdict = some VerdictName.not_affected;
  vex_status = some VexStatus.not_affected;
  vex_justification = some vulnerable_code_not_present;
  needs_human = false;
  recommended_action = none;
}

abbrev pub superseded_spec : RuleSpec
superseded_spec = record {
  id = "superseded";
  cvss_min = none;
  kind = some "skip_analysis";
  reason = some "superseded_by_newer_advisory";
  verdict = some VerdictName.affected;
  vex_status = some VexStatus.affected;
  vex_justification = none;
  needs_human = false;
  recommended_action = none;
}

abbrev pub trivial_spec : RuleSpec
trivial_spec = record {
  id = "trivial_patch";
  cvss_min = none;
  kind = some "skip_analysis";
  reason = some "trivial_patch_bump_recommended";
  verdict = some VerdictName.affected;
  vex_status = some VexStatus.affected;
  vex_justification = none;
  needs_human = false;
  recommended_action = none;
}

abbrev default_specs : List RuleSpec
default_specs = fixed_spec ∷ kev_spec ∷ dev_spec ∷ absent_spec ∷ superseded_spec ∷ trivial_spec ∷ []

abbrev pub default_rules : List Rule
default_rules =
    record { type = already_fixed_rule; spec = fixed_spec }
    ∷ record { type = kev_direct_critical_rule; spec = kev_spec }
    ∷ record { type = dev_only_rule; spec = dev_spec }
    ∷ record { type = not_imported_rule; spec = absent_spec }
    ∷ record { type = superseded_rule; spec = superseded_spec }
    ∷ record { type = trivial_patch_rule; spec = trivial_spec }
    ∷ []

-- What `PolicyEngine` builds from the file.
build-default_specs : build default_specs ≡ ok default_rules
unfolding build
build-default_specs = refl

abbrev pub default_engine : PolicyEngine
default_engine = record {
  rules = default_rules;
  valid_justifications =
      component_not_present ∷ vulnerable_code_not_present ∷ vulnerable_code_not_in_execute_path
      ∷ vulnerable_code_cannot_be_controlled_by_adversary ∷ inline_mitigations_already_exist ∷ [];
}

-- The facts of the KEV rule: known exploited, a direct dependency, CVSS of 9.0 or more.
abbrev pub IsKevCritical : RuleContext → Type 0
IsKevCritical ctx =
    (is_true ctx.alert.in_kev ≡ true)
    × (is_true ctx.alert.is_direct ≡ true)
    × (at_least 90000 ctx.alert.cvss_score ≡ true)

abbrev pub kev_outcome : RuleContext → RuleOutcome
kev_outcome ctx = record {
  rule_id = "kev_direct_critical";
  kind = OutcomeKind.escalate;
  reason = "kev_direct_critical";
  verdict = some VerdictName.affected;
  vex_status = some VexStatus.affected;
  vex_justification = none;
  needs_human = true;
  recommended_action = none;
  detail = Detail.kev ctx.alert.cvss_score;
}

kev_decides :
    (ctx : RuleContext)
    → IsKevCritical ctx
    → kev_direct_critical kev_spec ctx ≡ ok (some (kev_outcome ctx))
unfolding kev_direct_critical outcome
kev_decides ctx (a, b, c) = ground arith

-- A rule decides, or it declines and the rest decides.
head_or_rest :
    (rule : Rule) (rules : List Rule) (ctx : RuleContext) (o : RuleOutcome)
    → first_outcome (rule ∷ rules) ctx ≡ ok (some o)
    → (evaluate_type rule.type rule.spec ctx ≡ ok (some o))
      ⊎ (evaluate_type rule.type rule.spec ctx ≡ ok none) × (first_outcome rules ctx ≡ ok (some o))
unfolding first_outcome
head_or_rest rule rules ctx o h = elim (Result-cases (evaluate_type rule.type rule.spec ctx)) [
  | inr (e, raised) ↦ absurd (ground arith)
  | inl (found, answered) ↦ elim (Option-cases found) [
    | inl declined ↦ inr (ground arith, ground arith)
    | inr (x, decided) ↦ inl (ground arith)
  ]
]

nothing : (ctx : RuleContext) (o : RuleOutcome) → first_outcome [] ctx ≡ ok (some o) → ⊥
unfolding first_outcome
nothing ctx o h = cc

abbrev rules_from : ℕ → List Rule
rules_from n = drop n default_rules

module _ (ctx : RuleContext) (o : RuleOutcome)
    (verdict : o.verdict ≡ some VerdictName.not_affected) where
  upgrade_rules : first_outcome (rules_from 4) ctx ≡ ok (some o) → ⊥
  unfolding evaluate_type
  upgrade_rules h = elim (head_or_rest _ _ ctx o h) [
    | inl s ↦ cc ((superseded-Copies superseded_spec ctx o s).verdict)
    | inr (_, h') ↦ elim (head_or_rest _ _ ctx o h') [
      | inl t ↦ cc ((trivial_patch_lem trivial_spec ctx o t).1.verdict)
      | inr (_, h'') ↦ nothing ctx o h''
    ]
  ]

  clearing_rules : first_outcome (rules_from 2) ctx ≡ ok (some o) → IsDevOnly ctx ⊎ IsAbsent ctx
  unfolding evaluate_type
  clearing_rules h = elim (head_or_rest _ _ ctx o h) [
    | inl d ↦ inl (dev_only_lem dev_spec ctx o d).0
    | inr (_, h') ↦ elim (head_or_rest _ _ ctx o h') [
      | inl n ↦ inr (not_imported_lem absent_spec ctx o n).0
      | inr (_, h'') ↦ absurd (upgrade_rules h'')
    ]
  ]

  clears :
      first_outcome default_rules ctx ≡ ok (some o)
      → (IsDevOnly ctx ⊎ IsAbsent ctx) × ¬ IsKevCritical ctx
  unfolding evaluate_type
  clears h = elim (head_or_rest _ _ ctx o h) [
    | inl f ↦ cc ((already_fixed_lem fixed_spec ctx o f).1.verdict)
    | inr (_, h') ↦ elim (head_or_rest _ _ ctx o h') [
      | inl k ↦ cc ((kev_direct_critical-Copies kev_spec ctx o k).verdict)
      | inr (declined, h'') ↦ (clearing_rules h'', λ k. cc (kev_decides ctx k))
    ]
  ]

-- With the shipped policy, an outcome `not_affected` rests on measured facts: development scope that
-- the build targets (or the build system) exclude, or a package that a completed scan does not find
-- imported and that is in no shipped artifact. And the alert is no known-exploited critical one on a
-- direct dependency.
pub default_clears :
    (ctx : RuleContext) (s : ClearanceStats) (o : RuleOutcome)
    → (evaluate default_engine ctx s).0 ≡ ok (some o)
    → o.verdict ≡ some VerdictName.not_affected
    → (IsDevOnly ctx ⊎ IsAbsent ctx) × ¬ IsKevCritical ctx
unfolding evaluate
default_clears ctx s o h verdict =
    clears ctx o verdict (settle_lem (first_outcome default_rules ctx) _ _ o h).0

fixed_declines :
    (ctx : RuleContext)
    → at_or_above ctx.alert.resolved_ver ctx.alert.patched_ver ≢ some true
    → already_fixed fixed_spec ctx ≡ ok none
unfolding already_fixed
fixed_declines ctx h = ground arith

skip_rule :
    (rule : Rule) (rules : List Rule) (ctx : RuleContext)
    → evaluate_type rule.type rule.spec ctx ≡ ok none
    → first_outcome (rule ∷ rules) ctx ≡ first_outcome rules ctx
unfolding first_outcome
skip_rule rule rules ctx h = ground arith

take_rule :
    (rule : Rule) (rules : List Rule) (ctx : RuleContext) (o : RuleOutcome)
    → evaluate_type rule.type rule.spec ctx ≡ ok (some o)
    → first_outcome (rule ∷ rules) ctx ≡ ok (some o)
unfolding first_outcome
take_rule rule rules ctx o h = ground arith

kev_first :
    (ctx : RuleContext)
    → IsKevCritical ctx
    → at_or_above ctx.alert.resolved_ver ctx.alert.patched_ver ≢ some true
    → first_outcome default_rules ctx ≡ ok (some (kev_outcome ctx))
unfolding evaluate_type
kev_first ctx k open_alert =
    skip_rule _ _ ctx (fixed_declines ctx open_alert)
    ∙ take_rule _ _ ctx (kev_outcome ctx) (kev_decides ctx k)

-- With the shipped policy, a known-exploited critical alert on a direct dependency whose version is
-- not known to be patched is escalated: the answer is the KEV rule's outcome, `affected`, for a
-- human.
pub default_escalates :
    (ctx : RuleContext) (s : ClearanceStats)
    → IsKevCritical ctx
    → at_or_above ctx.alert.resolved_ver ctx.alert.patched_ver ≢ some true
    → (evaluate default_engine ctx s).0 ≡ ok (some (kev_outcome ctx))
unfolding evaluate settle validate
default_escalates ctx s k open_alert =
    ap
      (λ found.
        (settle found default_engine.valid_justifications (record s { total = s.total + 1 })).0)
      (kev_first ctx k open_alert)
