-- ===== src/Emit/Dismissal/Cleared.antt =====
-- The dismissal gate opens exactly when each of its clauses holds.
use dependabot_harness.Prelude.{
  ◌≤◌, ◌≡◌, refl, sym, ap, subst, ◌∙◌, is_some-eq-true, ◌↔◌, Bool, true, false, not, Option, some,
  List, [], ◌∷◌, ◌++◌, arith, le_of_ltb-eq-false, or_default, is_some,
}
use dependabot_harness.Alert.{Score}
use dependabot_harness.Verdict.{VerdictName, VerdictDoc, verdict_of, verdict_beq_iff, is_given}
use dependabot_harness.Emit.Dismissal.{
  Requirements, Reason, verdict_differs, confidence_below, DismissalGate, IsCleared, decide,
  is_stated, same_verdict, flatten_value, blocker, says_not_affected, absent_field, other_verdict,
  low_confidence, no_agreement, flagged, unjustified, blockers, evaluate,
}

same_verdict_iff : (a b : Option VerdictName) → (same_verdict a b ≡ true) ↔ (a ≡ b)
same_verdict_iff (some a) (some b) = ground (arith, verdict_beq_iff a b)
same_verdict_iff a b = ground arith

append-eq-nil : (xs ys : List Reason) → (xs ++ ys ≡ []) ↔ ((xs ≡ []) × (ys ≡ []))
append-eq-nil [] ys = (λ h. (refl, h), λ h. h.1)
append-eq-nil (x ∷ xs) ys = (λ h. cc, λ h. cc)

blocker-eq-nil : (test : Bool) (reason : Reason) → blocker test reason ≡ [] → test ≡ false
blocker-eq-nil test reason h = ground arith

blocker-not-eq-nil : (test : Bool) (reason : Reason) → blocker (not test) reason ≡ [] → test ≡ true
blocker-not-eq-nil test reason h = ground arith

decide_allowed : (rs : List Reason) → ((decide rs).allowed ≡ true) ↔ (rs ≡ [])
decide_allowed [] = (λ h. refl, λ h. refl)
decide_allowed (r ∷ rs) = (λ h. cc, λ h. cc)

-- What it takes for no blocker to be found.
record IsUnblocked (r : Requirements) (doc : VerdictDoc) (validated : Option Bool) : Type 0 where
  present : is_some doc.verdict ≡ true
  same : verdict_of doc ≡ flatten_value r.verdict
  enough : or_default r.confidence_min 0 ≤ or_default doc.confidence 0
  agreed : or_default r.validator_agreed false ≡ true → validated ≡ some true
  unflagged : doc.needs_human ≡ false
  justified : says_not_affected (verdict_of doc) ≡ true → is_given doc.vex_justification ≡ true

module _ (r : Requirements) (doc : VerdictDoc) (validated : Option Bool) where
  parts-IsUnblocked :
      absent_field r doc validated ≡ []
      → other_verdict r doc validated ≡ []
      → low_confidence r doc validated ≡ []
      → no_agreement r doc validated ≡ []
      → flagged r doc validated ≡ []
      → unjustified r doc validated ≡ []
      → IsUnblocked r doc validated
  unfolding absent_field other_verdict low_confidence no_agreement flagged unjustified
  parts-IsUnblocked a b c d e f = record {
    present = ground (arith, a);
    same = (same_verdict_iff _ _).0 (blocker-not-eq-nil _ verdict_differs b);
    enough = le_of_ltb-eq-false _ _ (blocker-eq-nil _ confidence_below c);
    agreed = λ w. ground (arith, d);
    unflagged = ground (arith, e);
    justified = λ n. ground (arith, f);
  }

  IsUnblocked-parts :
      IsUnblocked r doc validated
      → (absent_field r doc validated ≡ [])
        × (other_verdict r doc validated ≡ [])
        × (low_confidence r doc validated ≡ [])
        × (no_agreement r doc validated ≡ [])
        × (flagged r doc validated ≡ [])
        × (unjustified r doc validated ≡ [])
  unfolding absent_field other_verdict low_confidence no_agreement flagged unjustified
  IsUnblocked-parts u = (
    ground (arith, u.present),
    ground (arith, u.same, same_verdict_iff (verdict_of doc) (flatten_value r.verdict)),
    ground (arith, u.enough),
    ground (arith, u.agreed),
    ground (arith, u.unflagged),
    ground (arith, u.justified),
  )

  blockers-eq-nil : (blockers r doc validated ≡ []) ↔ IsUnblocked r doc validated
  unfolding blockers
  blockers-eq-nil =
      let ls = append-eq-nil in
      (
        λ h.
            let (a, h₁) = (ls _ _).0 h in
            let (b, h₂) = (ls _ _).0 h₁ in
            let (c, h₃) = (ls _ _).0 h₂ in
            let (d, h₄) = (ls _ _).0 h₃ in
            let (e, f) = (ls _ _).0 h₄ in parts-IsUnblocked a b c d e f,
        λ u.
            let (a, b, c, d, e, f) = IsUnblocked-parts u in
            (ls _ _).1 (a, (ls _ _).1 (b, (ls _ _).1 (c, (ls _ _).1 (d, (ls _ _).1 (e, f))))),
      )

evaluate_allowed :
    (gate : DismissalGate) (doc : VerdictDoc) (validated : Option Bool)
    → (evaluate gate doc validated).allowed ≡ true
    → (gate.enabled ≡ true)
      × (gate.coverage_complete ≡ true)
      × (is_stated gate.requirements ≡ true)
      × ((decide (blockers gate.requirements doc validated)).allowed ≡ true)
unfolding evaluate
evaluate_allowed gate doc validated h = ground arith

allowed-evaluate :
    (gate : DismissalGate) (doc : VerdictDoc) (validated : Option Bool)
    → gate.enabled ≡ true
    → gate.coverage_complete ≡ true
    → is_stated gate.requirements ≡ true
    → (decide (blockers gate.requirements doc validated)).allowed ≡ true
    → (evaluate gate doc validated).allowed ≡ true
unfolding evaluate
allowed-evaluate gate doc validated a b c d = rw (a, b, c) d

cleared :
    (gate : DismissalGate) (doc : VerdictDoc) (validated : Option Bool)
    → gate.enabled ≡ true
    → gate.coverage_complete ≡ true
    → is_stated gate.requirements ≡ true
    → IsUnblocked gate.requirements doc validated
    → IsCleared gate doc validated
cleared gate doc validated enabled covered stated u =
    let r = gate.requirements in
    let (required, verdict) = is_some-eq-true r.verdict (ground (arith, stated)) in
    let (minimum, confidence) = is_some-eq-true r.confidence_min (ground (arith, stated)) in
    let (wanted, agreement) = is_some-eq-true r.validator_agreed (ground (arith, stated)) in
    let (found, present) = is_some-eq-true doc.verdict u.present in
    record {
      enabled = enabled;
      covered = covered;
      required = required;
      minimum = minimum;
      wants_agreement = wanted;
      states_verdict = verdict;
      states_minimum = confidence;
      states_agreement = agreement;
      verdict =
          present ∙ ap some (ap flatten_value (sym present) ∙ u.same ∙ ap flatten_value verdict);
      confidence =
          subst (λ (o : Option Score). or_default o 0 ≤ or_default doc.confidence 0) confidence
            u.enough;
      agreed = λ w. u.agreed (ap (λ o. or_default o false) agreement ∙ w);
      unflagged = u.unflagged;
      justified = λ n. u.justified (ap (λ o. says_not_affected (flatten_value o)) n);
    }

unblocked :
    (gate : DismissalGate) (doc : VerdictDoc) (validated : Option Bool)
    → IsCleared gate doc validated
    → IsUnblocked gate.requirements doc validated
unblocked gate doc validated c = record {
  present = ground (arith, c.verdict);
  same = ap flatten_value (c.verdict ∙ sym c.states_verdict);
  enough = ground (arith, c.confidence, c.states_minimum);
  agreed = λ w. c.agreed (ground (arith, c.states_agreement));
  unflagged = c.unflagged;
  justified = λ n. c.justified (ground (arith, c.verdict));
}

-- The gate opens exactly when it is enabled, coverage is complete, every requirement is stated, and
-- the verdict meets all of them: it is the required one, confident enough, agreed to by the
-- validator where that is wanted, not flagged, and justified if it is `not_affected`.
pub evaluate_iff :
    (gate : DismissalGate) (doc : VerdictDoc) (validated : Option Bool)
    → ((evaluate gate doc validated).allowed ≡ true) ↔ IsCleared gate doc validated
unfolding evaluate
evaluate_iff gate doc validated = (
  λ h.
      let (enabled, covered, stated, open_gate) = evaluate_allowed gate doc validated h in
      cleared gate doc validated enabled covered stated
        ((blockers-eq-nil gate.requirements doc validated).0 ((decide_allowed _).0 open_gate)),
  λ c.
      allowed-evaluate gate doc validated c.enabled c.covered
        (ground (arith, c.states_verdict, c.states_minimum, c.states_agreement))
        ((decide_allowed _).1
          ((blockers-eq-nil gate.requirements doc validated).1 (unblocked gate doc validated c))),
)
