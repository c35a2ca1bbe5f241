-- ===== src/Evaluation.antt =====
-- harness/evaluation/metrics.py: the counts of a report and the gate on two reports. A rate is an exact
-- ratio, where the program divides floats; the digest of the case ids is an argument.
pub mod Gate
use dependabot_harness.Prelude.{
  ℕ, ◌+◌, ◌*◌, Bool, true, false, not, ◌&&◌, String, Option, none, some, List, [], ◌∷◌, ◌++◌, map,
  Text, length, filter, count, ltb, leb, nat_beq, is_some, ◌==◌, string_eq, if◌then◌else◌,
}
use Prim.Native.Nat.{compare, Ordering}
use dependabot_harness.Prelude.Order.{compare_list}
use dependabot_harness.Prelude.Sort.{sorted}
use dependabot_harness.Prelude.Sums.{sum_where}
use dependabot_harness.Verdict.{VerdictName, could_not_determine, verdict_beq}

-- `Label` of harness/evaluation/dataset.py
pub data Label : Type 0 where
  reachable not_reachable unsure : Label

-- `Outcome`, with the fields that the counts read.
pub record Outcome : Type 0 where
  pub case_id : Text
  pub label : Label
  pub verdict : VerdictName
  pub cost_usd : ℕ
  pub validator_agreed : Option Bool

abbrev pub is_reachable : Label → Bool
is_reachable reachable = true
is_reachable _ = false

abbrev pub is_not_reachable : Label → Bool
is_not_reachable not_reachable = true
is_not_reachable _ = false

abbrev pub is_sure : Label → Bool
is_sure unsure = false
is_sure _ = true

-- `DISMISSING_VERDICTS`, `ESCALATING_VERDICTS`, `UNDECIDED_VERDICTS`
abbrev pub dismisses : VerdictName → Bool
dismisses VerdictName.not_affected = true
dismisses VerdictName.fixed = true
dismisses _ = false

abbrev pub escalates : VerdictName → Bool
escalates VerdictName.affected = true
escalates _ = false

abbrev pub is_undecided : VerdictName → Bool
is_undecided could_not_determine = true
is_undecided _ = false

abbrev pub is_false_negative : Outcome → Bool
is_false_negative o = is_reachable o.label && dismisses o.verdict

abbrev pub is_false_positive : Outcome → Bool
is_false_positive o = is_not_reachable o.label && escalates o.verdict

abbrev pub is_true_positive : Outcome → Bool
is_true_positive o = is_reachable o.label && escalates o.verdict

abbrev pub is_true_negative : Outcome → Bool
is_true_negative o = is_not_reachable o.label && dismisses o.verdict

abbrev abstains_on_reachable : Outcome → Bool
abstains_on_reachable o = is_reachable o.label && is_undecided o.verdict

-- `EvalReport`, less the name of its split.
abbrev pub EvalReport : Type 0
EvalReport = List Outcome

abbrev pub decidable : EvalReport → List Outcome
decidable = filter (λ o. is_sure o.label)

unfoldable pub false_negatives : EvalReport → List Outcome
false_negatives r = filter is_false_negative (decidable r)

unfoldable pub false_positives : EvalReport → List Outcome
false_positives r = filter is_false_positive (decidable r)

unfoldable pub true_positives : EvalReport → ℕ
true_positives r = count is_true_positive (decidable r)

unfoldable pub true_negatives : EvalReport → ℕ
true_negatives r = count is_true_negative (decidable r)

unfoldable pub reachable_count : EvalReport → ℕ
reachable_count r = count (λ o. is_reachable o.label) (decidable r)

unfoldable pub not_reachable_count : EvalReport → ℕ
not_reachable_count r = count (λ o. is_not_reachable o.label) (decidable r)

unfoldable pub abstained_on_reachable : EvalReport → ℕ
abstained_on_reachable r = count abstains_on_reachable (decidable r)

-- `_ratio`: over zero it is 0.
pub record Ratio : Type 0 where
  pub numerator : ℕ
  pub denominator : ℕ

unfoldable pub ratio : ℕ → ℕ → Ratio
ratio n d =
    if nat_beq d 0
    then record { numerator = 0; denominator = 1 }
    else record { numerator = n; denominator = d }

-- `b - a > 0`
unfoldable pub rises : Ratio → Ratio → Bool
rises a b = ltb (a.numerator * b.denominator) (b.numerator * a.denominator)

unfoldable pub false_negative_rate : EvalReport → Ratio
false_negative_rate r = ratio (length (false_negatives r)) (reachable_count r)

unfoldable pub false_positive_rate : EvalReport → Ratio
false_positive_rate r = ratio (length (false_positives r)) (not_reachable_count r)

unfoldable pub could_not_determine_rate : EvalReport → Ratio
could_not_determine_rate r =
    ratio (count (λ o. is_undecided o.verdict) (decidable r)) (length (decidable r))

unfoldable pub abstention_on_reachable_rate : EvalReport → Ratio
abstention_on_reachable_rate r = ratio (abstained_on_reachable r) (reachable_count r)

unfoldable pub mean_cost_per_alert : EvalReport → Ratio
mean_cost_per_alert r = ratio (sum_where (λ o. true) (λ o. o.cost_usd) r) (length r)

abbrev disagrees : Outcome → Bool
disagrees o = elim o.validator_agreed [ none ↦ false | some agreed ↦ not agreed ]

unfoldable pub validator_disagreement_rate : EvalReport → Ratio
validator_disagreement_rate r =
    let judged = filter (λ o. is_some o.validator_agreed) r in
    ratio (count disagrees judged) (length judged)

unfoldable pub precision : EvalReport → Ratio
precision r = ratio (true_positives r) (true_positives r + length (false_positives r))

unfoldable pub recall : EvalReport → Ratio
recall r = ratio (true_positives r) (reachable_count r)

abbrev before_text : Text → Text → Bool
before_text s t = elim (compare_list compare s t) [ Ordering.gt ↦ false | _ ↦ true ]

unfoldable pub join : Text → List Text → Text
join separator [] = []
join separator (t ∷ []) = t
join separator (t ∷ u ∷ ts) = t ++ (separator ++ join separator (u ∷ ts))

abbrev pub sorted_ids : EvalReport → List Text
sorted_ids r = sorted before_text (map (λ (o : Outcome). o.case_id) r)

-- `dataset_fingerprint`
unfoldable pub dataset_fingerprint : (Text → String) → EvalReport → String
dataset_fingerprint digest r = digest (join (b'|' ∷ []) (sorted_ids r))

pub data Reason : Type 0 where
  different_case_sets false_negatives_rose abstention_rose held : Reason

pub record Comparison : Type 0 where
  pub comparable : Bool
  pub accepted : Bool
  pub reason : Reason

-- `compare`, less the deltas that it reports.
unfoldable pub compare_reports : (Text → String) → EvalReport → EvalReport → Comparison
compare_reports digest baseline candidate =
    let comparable = dataset_fingerprint digest candidate == dataset_fingerprint digest baseline in
    let fn_rises = rises (false_negative_rate baseline) (false_negative_rate candidate) in
    let abstention_rises =
      rises (abstention_on_reachable_rate baseline) (abstention_on_reachable_rate candidate) in
    record {
      comparable = comparable;
      accepted = comparable && (not fn_rises && not abstention_rises);
      reason =
          if not comparable
          then different_case_sets
          else if fn_rises
          then false_negatives_rose
          else if abstention_rises
          then abstention_rose
          else held;
    }
