-- ===== src/Policy/Soundness.antt =====
-- What the engine guarantees of every outcome that it returns: the check of `_validate`, and that
-- the first rule in order decided.
use dependabot_harness.Prelude.{
  ◌≡◌, refl, ◌≢◌, ◌⊎◌, true, Option, none, some, List, [], ◌∷◌, ◌++◌, arith, contains, Result, ok,
  err, ap, subst, inl, inr, Result-cases, Option-cases,
}
use dependabot_harness.Verdict.{VexStatus, Justification, is_given, justification_eq}
use dependabot_harness.Policy.Context.{OutcomeKind, RuleOutcome, RuleContext}
use dependabot_harness.Policy.Rules.{PolicyError}
use dependabot_harness.Policy.Engine.{
  PolicyEngine, Rule, ClearanceStats, validate, settle, evaluate, evaluate_type, first_outcome,
  has_verdict,
}

pub record IsSound (valid : List Justification) (o : RuleOutcome) : Type 0 where
  pub not_dedup : o.kind ≢ OutcomeKind.dedup
  pub decided : has_verdict o.verdict ≡ true
  pub justified : o.vex_status ≡ some VexStatus.not_affected → is_given o.vex_justification ≡ true
  pub coded :
      (j : Justification)
      → o.vex_justification ≡ some j
      → is_given (some j) ≡ true
      → (valid ≡ []) ⊎ (contains valid j ≡ true)

validate_lem :
    (valid : List Justification) (o o' : RuleOutcome) → validate valid o ≡ ok o' → IsSound valid o
unfolding validate
validate_lem [] o o' h = record {
  not_dedup = ground arith;
  decided = ground arith;
  justified = ground arith;
  coded = λ j e g. inl refl;
}
validate_lem (v ∷ vs) o o' h = record {
  not_dedup = ground arith;
  decided = ground arith;
  justified = ground arith;
  coded = λ j e g. inr (ground arith);
}

pub settle_lem :
    (found : Result PolicyError (Option RuleOutcome)) (valid : List Justification)
    (s : ClearanceStats) (o : RuleOutcome)
    → (settle found valid s).0 ≡ ok (some o)
    → (found ≡ ok (some o)) × IsSound valid o
unfolding settle
settle_lem (err e) valid s o h = cc
settle_lem (ok none) valid s o h = cc
settle_lem (ok (some x)) valid s o h = elim (Result-cases (validate valid x)) [
  | inl (y, passed) ↦
      let same : x ≡ o = ground arith in
      (ap (λ z. ok (some z)) same, subst (IsSound valid) same (validate_lem valid x y passed))
  | inr (e, raised) ↦ absurd (ground arith)
]

-- The rules that stand before the one that decides all decline.
pub record Decides (rules : List Rule) (ctx : RuleContext) (o : RuleOutcome) : Type 0 where
  pub before : List Rule
  pub rule : Rule
  pub after : List Rule
  pub order : rules ≡ before ++ rule ∷ after
  pub declined : first_outcome before ctx ≡ ok none
  pub decides : evaluate_type rule.type rule.spec ctx ≡ ok (some o)

pub first_outcome_lem :
    (rules : List Rule) (ctx : RuleContext) (o : RuleOutcome)
    → first_outcome rules ctx ≡ ok (some o)
    → Decides rules ctx o
unfolding first_outcome
first_outcome_lem [] ctx o h = cc
first_outcome_lem (rule ∷ rules) ctx o h =
    elim (Result-cases (evaluate_type rule.type rule.spec ctx)) [
      | inr (e, raised) ↦ absurd (ground arith)
      | inl (found, answered) ↦ elim (Option-cases found) [
        | inl declined ↦
            let later = first_outcome_lem rules ctx o (ground arith) in
            record {
              before = rule ∷ later.before;
              rule = later.rule;
              after = later.after;
              order = ap (λ l. rule ∷ l) later.order;
              declined = ground (arith, later.declined);
              decides = later.decides;
            }
        | inr (x, decided) ↦ record {
          before = [];
          rule = rule;
          after = rules;
          order = refl;
          declined = refl;
          decides = ground arith;
        }
      ]
    ]

-- Every outcome that `evaluate` returns passed the check: it is no dedup, carries a verdict, a
-- `not_affected` status has a justification, and a justification is one of the configured codes
-- where any are configured. And the first rule, in order, that did not decline produced it.
pub evaluate-IsSound :
    (engine : PolicyEngine) (ctx : RuleContext) (s : ClearanceStats) (o : RuleOutcome)
    → (evaluate engine ctx s).0 ≡ ok (some o)
    → IsSound engine.valid_justifications o × Decides engine.rules ctx o
unfolding evaluate
evaluate-IsSound engine ctx s o h =
    let (found, sound) = settle_lem (first_outcome engine.rules ctx) _ _ o h in
    (sound, first_outcome_lem engine.rules ctx o found)
