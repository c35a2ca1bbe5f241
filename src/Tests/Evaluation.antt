-- ===== src/Tests/Evaluation.antt =====
-- The gate on two reports, at two cases.
use dependabot_harness.Prelude.{
  ℕ, ◌≤◌, ◌≡◌, refl, subst, sym, inl, inr, true, List, [], ◌∷◌, none, Text, codes, length, text_eq,
  ◌==◌, if◌then◌else◌, In, here, there,
}
use dependabot_harness.Verdict.{VerdictName, could_not_determine}
use dependabot_harness.Evaluation.{
  Label, reachable, not_reachable, Outcome, EvalReport, true_positives, false_negatives,
  reachable_count, compare_reports,
}
use dependabot_harness.Evaluation.Gate.{IsKnown, compare_reports-recall}

abbrev outcome_of : Text → Label → VerdictName → Outcome
outcome_of id label verdict = record {
  case_id = id;
  label = label;
  verdict = verdict;
  cost_usd = 5;
  validator_agreed = none;
}

abbrev label_of : Text → Label
label_of id = if id == codes "a" then reachable else not_reachable

abbrev abstaining : EvalReport
abstaining =
    outcome_of (codes "a") reachable could_not_determine
    ∷ outcome_of (codes "b") not_reachable VerdictName.not_affected
    ∷ []

abbrev deciding : EvalReport
deciding =
    outcome_of (codes "b") not_reachable VerdictName.affected
    ∷ outcome_of (codes "a") reachable VerdictName.affected
    ∷ []

-- A property of the two members of a list.
of_two : (P : Outcome → Type 0) (a b o : Outcome) → P a → P b → In o (a ∷ b ∷ []) → P o
of_two P a b o p q (here same) = subst P (sym same) p
of_two P a b o p q (there (here same)) = subst P (sym same) q
of_two P a b o p q (there (there later)) = elim later [ ]

abbrev IsLabelled : Outcome → Type 0
IsLabelled o = o.label ≡ label_of o.case_id

compare_reports-recall_example :
    (reachable_count deciding ≡ reachable_count abstaining)
    × (true_positives abstaining ≤ true_positives deciding)
    × (length (false_negatives deciding) ≤ length (false_negatives abstaining))
unfolding dependabot_harness.Prelude.Sort.sorted dependabot_harness.Prelude.Sort.insert_sorted
    compare_reports dependabot_harness.Evaluation.dataset_fingerprint
    dependabot_harness.Evaluation.rises dependabot_harness.Evaluation.false_negative_rate
    dependabot_harness.Evaluation.ratio reachable_count false_negatives
    dependabot_harness.Evaluation.abstention_on_reachable_rate
    dependabot_harness.Evaluation.abstained_on_reachable
compare_reports-recall_example =
    compare_reports-recall (λ text. "digest") label_of abstaining deciding
      (λ o. of_two IsLabelled _ _ o refl refl) (λ o. of_two IsLabelled _ _ o refl refl)
      (λ o. of_two IsKnown _ _ o (inr (inr refl)) (inr (inl refl)))
      (λ o. of_two IsKnown _ _ o (inl refl) (inl refl)) (λ same. refl) refl
