-- ===== src/Policy/Engine.antt =====
-- harness/policy/engine.py: the engine's construction, first match wins, the check of an outcome,
-- and the clearance statistics that each evaluation updates.
use dependabot_harness.Prelude.{
  ℕ, ◌+◌, ◌-◌, Bool, true, false, not, ◌&&◌, String, Option, none, some, List, [], ◌∷◌, Text,
  contains, ◌==◌, string_eq, Result, ok, err, ◌>>=◌, if◌then◌else◌, min,
}
use dependabot_harness.Alert.{Score}
use dependabot_harness.Verdict.{VerdictName, VexStatus, Justification, justification_eq, is_given}
use dependabot_harness.Ecosystem.{get_adapter, confidence_ceiling}
use dependabot_harness.Policy.Context.{OutcomeKind, RuleOutcome, RuleContext}
use dependabot_harness.Policy.Rules.{
  PolicyError, policy_error, RuleSpec, Evaluate, already_fixed, superseded, kev_direct_critical,
  dev_only, not_imported, trivial_patch,
}

-- The classes of `RULE_TYPES`.
pub data RuleType : Type 0 where
  already_fixed_rule superseded_rule kev_direct_critical_rule : RuleType
  dev_only_rule not_imported_rule trivial_patch_rule : RuleType

-- `RULE_TYPES.get(rule_id)`
unfoldable pub rule_type : String → Option RuleType
rule_type id =
    if id == "already_fixed"
    then some already_fixed_rule
    else if id == "superseded"
    then some superseded_rule
    else if id == "kev_direct_critical"
    then some kev_direct_critical_rule
    else if id == "dev_only"
    then some dev_only_rule
    else if id == "not_imported"
    then some not_imported_rule
    else if id == "trivial_patch"
    then some trivial_patch_rule
    else none

pub record Rule : Type 0 where
  pub type : RuleType
  pub spec : RuleSpec

-- `rule.evaluate`, by the rule's class.
unfoldable pub evaluate_type : RuleType → Evaluate
evaluate_type already_fixed_rule = already_fixed
evaluate_type superseded_rule = superseded
evaluate_type kev_direct_critical_rule = kev_direct_critical
evaluate_type dev_only_rule = dev_only
evaluate_type not_imported_rule = not_imported
evaluate_type trivial_patch_rule = trivial_patch

-- `PolicyEngine._build`
unfoldable pub build : List RuleSpec → Result PolicyError (List Rule)
unfolding rule_type
build [] = ok []
build (spec ∷ specs) =
    let rest = build specs in
    elim (rule_type spec.id) [
      | none ↦ err policy_error
      | some type ↦ rest >>= λ rules. ok (record { type = type; spec = spec } ∷ rules)
    ]

pub record PolicyEngine : Type 0 where
  pub rules : List Rule
  pub valid_justifications : List Justification

-- `Counter`: the count of each key, in the order of first use.
abbrev pub Counter : Type 0
Counter = List (String × ℕ)

-- `counter[key] += 1`
unfoldable pub increment : String → Counter → Counter
increment key [] = (key, 1) ∷ []
increment key ((k, n) ∷ c) = if k == key then (k, n + 1) ∷ c else (k, n) ∷ increment key c

-- `counter[key]`
unfoldable pub count_of : String → Counter → ℕ
count_of key [] = 0
count_of key ((k, n) ∷ c) = if k == key then n else count_of key c

-- `sum(counter.values())`
unfoldable pub sum_values : Counter → ℕ
sum_values [] = 0
sum_values ((k, n) ∷ c) = n + sum_values c

pub record ClearanceStats : Type 0 where
  pub total : ℕ
  pub by_rule : Counter
  pub affected_by_rule : Counter

-- `reset_stats`
abbrev pub fresh_stats : ClearanceStats
fresh_stats = record { total = 0; by_rule = []; affected_by_rule = [] }

unfoldable pub terminated : ClearanceStats → ℕ
terminated s = sum_values s.by_rule

unfoldable pub decided_affected : ClearanceStats → ℕ
decided_affected s = sum_values s.affected_by_rule

-- The two differences of the source, on integers that `Accounting` shows not to go below zero.
unfoldable pub cleared : ClearanceStats → ℕ
unfolding terminated decided_affected
cleared s = terminated s - decided_affected s

unfoldable pub reaching_analysis : ClearanceStats → ℕ
unfolding terminated
reaching_analysis s = s.total - terminated s

-- `bool(outcome.verdict)`
abbrev pub has_verdict : Option VerdictName → Bool
has_verdict none = false
has_verdict (some (VerdictName.other s)) = not (s == "")
has_verdict (some _) = true

abbrev pub is_dedup : OutcomeKind → Bool
is_dedup OutcomeKind.dedup = true
is_dedup _ = false

abbrev pub says_not_affected : Option VexStatus → Bool
says_not_affected (some VexStatus.not_affected) = true
says_not_affected _ = false

abbrev pub known_code : List Justification → Option Justification → Bool
known_code valid none = false
known_code valid (some j) = contains valid j

abbrev pub is_empty : List Justification → Bool
is_empty [] = true
is_empty (j ∷ js) = false

-- `PolicyEngine._validate`
unfoldable pub validate : List Justification → RuleOutcome → Result PolicyError RuleOutcome
validate valid outcome =
    if not (is_dedup outcome.kind) && not (has_verdict outcome.verdict)
    then err policy_error
    else if is_dedup outcome.kind
    then err policy_error
    else if says_not_affected outcome.vex_status && not (is_given outcome.vex_justification)
    then err policy_error
    else if is_given outcome.vex_justification
        && (not (is_empty valid) && not (known_code valid outcome.vex_justification))
    then err policy_error
    else ok outcome

-- The loop of `evaluate`: the first rule that does not decline decides, and a raise ends it.
unfoldable pub first_outcome : List Rule → RuleContext → Result PolicyError (Option RuleOutcome)
unfolding evaluate_type
first_outcome [] ctx = ok none
first_outcome (rule ∷ rules) ctx =
    let rest = first_outcome rules ctx in
    elim (evaluate_type rule.type rule.spec ctx) [
      | err e ↦ err e
      | ok found ↦ elim found [ none ↦ rest | some o ↦ ok (some o) ]
    ]

abbrev pub is_affected : Option VerdictName → Bool
is_affected (some VerdictName.affected) = true
is_affected _ = false

-- The counters after an outcome that passed the check.
unfoldable pub record_outcome : RuleOutcome → ClearanceStats → ClearanceStats
record_outcome o s = record s {
  by_rule = increment o.rule_id s.by_rule;
  affected_by_rule =
      if is_affected o.verdict then increment o.rule_id s.affected_by_rule else s.affected_by_rule;
}

unfoldable pub settle :
    Result PolicyError (Option RuleOutcome)
    → List Justification
    → ClearanceStats
    → Result PolicyError (Option RuleOutcome) × ClearanceStats
unfolding record_outcome
settle (err e) valid s = (err e, s)
settle (ok none) valid s = (ok none, s)
settle (ok (some o)) valid s = elim (validate valid o) [
  | err e ↦ (err e, s)
  | ok _ ↦ (ok (some o), record_outcome o s)
]

-- `PolicyEngine.evaluate`: `total` is counted first, also where the rest raises.
unfoldable pub evaluate :
    PolicyEngine
    → RuleContext
    → ClearanceStats
    → Result PolicyError (Option RuleOutcome) × ClearanceStats
unfolding settle
evaluate engine ctx s =
    settle (first_outcome engine.rules ctx) engine.valid_justifications
      (record s { total = s.total + 1 })

-- `policy_confidence`
unfoldable pub policy_confidence : Text → Score
policy_confidence ecosystem =
    min 10000
      (elim (get_adapter ecosystem) [ none ↦ 5000 | some adapter ↦ confidence_ceiling adapter ])
