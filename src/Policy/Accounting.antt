-- ===== src/Policy/Accounting.antt =====
-- The clearance statistics do not flatter: what they count, over any sequence of evaluations.
use dependabot_harness.Prelude.{
  ℕ, length, ◌+◌, ◌≤◌, ◌≡◌, refl, Bool, true, String, Option, none, some, List, [], ◌∷◌, arith, ok,
  err, Result, if◌then◌else◌,
}
use dependabot_harness.Verdict.{Justification}
use dependabot_harness.Policy.Context.{RuleOutcome, RuleContext, is_clearance}
use dependabot_harness.Policy.Rules.{PolicyError, policy_error}
use dependabot_harness.Policy.Engine.{
  PolicyEngine, Counter, increment, sum_values, ClearanceStats, fresh_stats, terminated,
  decided_affected, cleared, reaching_analysis, is_affected, settle, evaluate, validate,
  first_outcome,
}

sum_values-increment : (k : String) (c : Counter) → sum_values (increment k c) ≡ sum_values c + 1
unfolding sum_values increment
sum_values-increment k [] = omega arith
sum_values-increment k ((j, n) ∷ c) = ground (arith, sum_values-increment k c)

abbrev Answer : Type 0
Answer = Result PolicyError (Option RuleOutcome)

-- One for an answer whose outcome has the property, else zero.
abbrev tally : (RuleOutcome → Bool) → Answer → ℕ
tally p (err e) = 0
tally p (ok none) = 0
tally p (ok (some o)) = if p o then 1 else 0

abbrev any_outcome : RuleOutcome → Bool
any_outcome o = true

abbrev affected_outcome : RuleOutcome → Bool
affected_outcome o = is_affected o.verdict

-- What one evaluation adds to the counters.
record Counts (answer : Answer) (before after : ClearanceStats) : Type 0 where
  total : after.total ≡ before.total
  terminated_by : terminated after ≡ terminated before + tally any_outcome answer
  affected_by : decided_affected after ≡ decided_affected before + tally affected_outcome answer
  cleared_by : tally any_outcome answer ≡ tally affected_outcome answer + tally is_clearance answer

-- An outcome with no verdict never passes the check.
validate_undecided :
    (valid : List Justification) (o : RuleOutcome)
    → o.verdict ≡ none
    → validate valid o ≡ err policy_error
unfolding validate
validate_undecided valid o h = ground arith

settle-Counts :
    (found : Answer) (valid : List Justification) (s : ClearanceStats)
    → Counts (settle found valid s).0 s (settle found valid s).1
unfolding settle terminated decided_affected is_clearance
settle-Counts (err e) valid s = ground arith
settle-Counts (ok none) valid s = ground arith
settle-Counts (ok (some o)) valid s = record {
  total = ground arith;
  terminated_by = ground (arith, sum_values-increment o.rule_id s.by_rule);
  affected_by = ground (arith, sum_values-increment o.rule_id s.affected_by_rule);
  cleared_by = ground (arith, validate_undecided valid o);
}

settle_stats :
    (found : Answer) (valid : List Justification) (s t : ClearanceStats)
    → (settle found valid s).0 ≡ (settle found valid t).0
unfolding settle
settle_stats (err e) valid s t = refl
settle_stats (ok none) valid s t = refl
settle_stats (ok (some o)) valid s t = ground arith

-- What the engine answers, which does not depend on the counters.
pub answer : PolicyEngine → RuleContext → Answer
answer engine ctx = (evaluate engine ctx fresh_stats).0

evaluate-Counts :
    (engine : PolicyEngine) (ctx : RuleContext) (s : ClearanceStats)
    → ((evaluate engine ctx s).1.total ≡ s.total + 1)
      × (terminated (evaluate engine ctx s).1
          ≡ terminated s + tally any_outcome (answer engine ctx))
      × (decided_affected (evaluate engine ctx s).1
          ≡ decided_affected s + tally affected_outcome (answer engine ctx))
      × (tally any_outcome (answer engine ctx)
          ≡ tally affected_outcome (answer engine ctx) + tally is_clearance (answer engine ctx))
unfolding evaluate answer terminated decided_affected
evaluate-Counts engine ctx s =
    let found = first_outcome engine.rules ctx in
    let valid = engine.valid_justifications in
    let counted : ClearanceStats = record s { total = s.total + 1 } in
    let same = settle_stats found valid counted (record fresh_stats { total = 0 + 1 }) in
    let c = settle-Counts found valid counted in
    (
      c.total,
      ground (arith, same, c.terminated_by),
      ground (arith, same, c.affected_by),
      ground (arith, same, c.cleared_by),
    )

-- The counters after a sequence of calls of `evaluate`.
pub run : PolicyEngine → List RuleContext → ClearanceStats → ClearanceStats
run engine [] s = s
run engine (ctx ∷ rest) s = run engine rest (evaluate engine ctx s).1

pub outcomes_where : PolicyEngine → (RuleOutcome → Bool) → List RuleContext → ℕ
outcomes_where engine p [] = 0
outcomes_where engine p (ctx ∷ rest) = tally p (answer engine ctx) + outcomes_where engine p rest

outcomes_where-le :
    (engine : PolicyEngine) (ctxs : List RuleContext)
    → outcomes_where engine any_outcome ctxs ≤ length ctxs
unfolding outcomes_where
outcomes_where-le engine [] = omega arith
outcomes_where-le engine (ctx ∷ rest) = ground (arith, outcomes_where-le engine rest)

run_counts :
    (engine : PolicyEngine) (ctxs : List RuleContext) (s : ClearanceStats)
    → ((run engine ctxs s).total ≡ s.total + length ctxs)
      × (terminated (run engine ctxs s) ≡ terminated s + outcomes_where engine any_outcome ctxs)
      × (decided_affected (run engine ctxs s)
          ≡ decided_affected s + outcomes_where engine affected_outcome ctxs)
      × (outcomes_where engine any_outcome ctxs
          ≡ outcomes_where engine affected_outcome ctxs + outcomes_where engine is_clearance ctxs)
unfolding run outcomes_where
run_counts engine [] s = omega arith
run_counts engine (ctx ∷ rest) s =
    ground (arith, evaluate-Counts engine ctx s, run_counts engine rest (evaluate engine ctx s).1)

-- From fresh counters, after any sequence of evaluations: `total` counts the calls, `terminated`
-- those that returned an outcome, `cleared` those whose outcome is a clearance (a verdict other
-- than `affected`), and `reaching_analysis` is what is left; neither difference went below zero.
pub run_accounts :
    (engine : PolicyEngine) (ctxs : List RuleContext)
    → let s = run engine ctxs fresh_stats in
      (s.total ≡ length ctxs)
      × (terminated s ≡ outcomes_where engine (λ o. true) ctxs)
      × (cleared s ≡ outcomes_where engine is_clearance ctxs)
      × (decided_affected s + cleared s ≡ terminated s)
      × (terminated s + reaching_analysis s ≡ s.total)
unfolding cleared reaching_analysis sum_values terminated decided_affected
run_accounts engine ctxs =
    omega (arith, run_counts engine ctxs fresh_stats, outcomes_where-le engine ctxs)
