-- ===== src/Evaluation/Gate.antt =====
-- What a change that the gate accepts does not make worse.
use native.Mathlib.Nat.{mul-le-mul_right}
use dependabot_harness.Prelude.{
  ℕ, ◌+◌, ◌*◌, ◌≤◌, ◌<◌, ◌≡◌, refl, sym, ap, ◌∙◌, ◌⊎◌, inl, inr, true, false, String, [], ◌∷◌, map,
  Text, length, count, ltb, nat_beq, string_eq, eq_iff, arith, Bool-cases, In, here, there,
}
use dependabot_harness.Prelude.Sort.{count-sorted}
use dependabot_harness.Evaluation.{
  Label, Outcome, is_reachable, dismisses, escalates, is_undecided, EvalReport, false_negatives,
  true_positives, reachable_count, abstained_on_reachable, ratio, rises, false_negative_rate,
  abstention_on_reachable_rate, before_text, sorted_ids, dataset_fingerprint, compare_reports,
}

le_of_mul_right : (a b k : ℕ) → 0 < k → a * k ≤ b * k → a ≤ b
le_of_mul_right a b k pos h = elim (Bool-cases (ltb b a)) [
  | inl above ↦
      let over : b + 1 ≤ a = ground (arith, above) in
      absurd (omega (arith, mul-le-mul_right k over, h, pos))
  | inr within ↦ ground (arith, within)
]

-- A case that is surely reachable is escalated, dismissed or undecided.
abbrev pub IsKnown : Outcome → Type 0
IsKnown o =
    (escalates o.verdict ≡ true) ⊎ (dismisses o.verdict ≡ true) ⊎ (is_undecided o.verdict ≡ true)

partition :
    (r : EvalReport)
    → ((o : Outcome) → In o r → IsKnown o)
    → true_positives r + length (false_negatives r) + abstained_on_reachable r ≡ reachable_count r
unfolding true_positives false_negatives abstained_on_reachable reachable_count
partition [] known = omega arith
partition (o ∷ r) known =
    ground (arith, known o (here refl), partition r (λ x m. known x (there m)))

-- The count of the reachable cases is one over the sorted ids, where the label goes by the id.
module _ (label_of : Text → Label) where
  count_ids :
      (r : EvalReport)
      → ((o : Outcome) → In o r → o.label ≡ label_of o.case_id)
      → reachable_count r
        ≡ count (λ id. is_reachable (label_of id)) (map (λ (o : Outcome). o.case_id) r)
  unfolding reachable_count
  count_ids [] labelled = refl
  count_ids (o ∷ r) labelled =
      ground (arith, labelled o (here refl), count_ids r (λ x m. labelled x (there m)))

  same_reachable :
      (a b : EvalReport)
      → ((o : Outcome) → In o a → o.label ≡ label_of o.case_id)
      → ((o : Outcome) → In o b → o.label ≡ label_of o.case_id)
      → sorted_ids a ≡ sorted_ids b
      → reachable_count a ≡ reachable_count b
  same_reachable a b la lb same =
      let p = λ (id : Text). is_reachable (label_of id) in
      count_ids a la
      ∙ sym (count-sorted before_text p (map (λ (o : Outcome). o.case_id) a))
      ∙ ap (count p) same
      ∙ count-sorted before_text p (map (λ (o : Outcome). o.case_id) b)
      ∙ sym (count_ids b lb)

not_rises_le : (m n d : ℕ) → m ≤ d → n ≤ d → rises (ratio m d) (ratio n d) ≡ false → n ≤ m
unfolding rises ratio
not_rises_le m n d hm hn h = elim (Bool-cases (nat_beq d 0)) [
  | inl zero_cases ↦ ground (arith, zero_cases)
  | inr some_cases ↦
      le_of_mul_right n m d (ground (arith, some_cases)) (ground (arith, some_cases, h))
]

-- A change that the gate accepts escalates at least as many of the reachable cases: where a case's
-- label goes by its id, every verdict is one of the four, and the digest does not take two case sets
-- for one, the true positives and with them the recall do not fall.
pub compare_reports-recall :
    (digest : Text → String) (label_of : Text → Label) (baseline candidate : EvalReport)
    → ((o : Outcome) → In o baseline → o.label ≡ label_of o.case_id)
    → ((o : Outcome) → In o candidate → o.label ≡ label_of o.case_id)
    → ((o : Outcome) → In o baseline → IsKnown o)
    → ((o : Outcome) → In o candidate → IsKnown o)
    → (dataset_fingerprint digest candidate ≡ dataset_fingerprint digest baseline
        → sorted_ids candidate ≡ sorted_ids baseline)
    → (compare_reports digest baseline candidate).accepted ≡ true
    → (reachable_count candidate ≡ reachable_count baseline)
      × (true_positives baseline ≤ true_positives candidate)
      × (length (false_negatives candidate) ≤ length (false_negatives baseline))
unfolding compare_reports false_negative_rate abstention_on_reachable_rate
compare_reports-recall digest label_of baseline candidate lb lc kb kc collisions accepted =
    let same_set =
      (eq_iff (dataset_fingerprint digest candidate) (dataset_fingerprint digest baseline)).0
        (ground (arith, accepted)) in
    let same = same_reachable label_of candidate baseline lc lb (collisions same_set) in
    let pb = partition baseline kb in
    let pc = partition candidate kc in
    let fn =
      not_rises_le (length (false_negatives baseline)) (length (false_negatives candidate))
        (reachable_count baseline) (omega (arith, pb)) (omega (arith, pc, same))
        (ground (arith, accepted, same)) in
    let ab =
      not_rises_le (abstained_on_reachable baseline) (abstained_on_reachable candidate)
        (reachable_count baseline) (omega (arith, pb)) (omega (arith, pc, same))
        (ground (arith, accepted, same)) in
    (same, omega (arith, pb, pc, fn, ab, same), fn)
