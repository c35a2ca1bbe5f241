-- ===== src/Emit/Dismissal.antt =====
-- harness/emit/dismissal.py: the conjunctive gate on auto-dismissal.
pub mod Cleared
use dependabot_harness.Prelude.{
  ℕ, ◌≤◌, ◌≡◌, refl, ◌≢◌, ◌↔◌, ◌⊎◌, inl, inr, Bool, true, false, not, ◌&&◌, ◌||◌, String, Option,
  none, some, List, [], ◌∷◌, ◌++◌, arith, ltb, le_of_ltb-eq-false, or_default, is_some,
  if◌then◌else◌, eq_iff,
}
use dependabot_harness.Alert.{Score}
use dependabot_harness.Verdict.{
  VerdictName, VerdictDoc, verdict_of, verdict_beq, verdict_beq_iff, is_given,
}

-- `output.auto_dismiss_requires`. A key that is absent is `none`; `verdict: null` is `some none`.
pub record Requirements : Type 0 where
  pub verdict : Option (Option VerdictName)
  pub confidence_min : Option Score
  pub validator_agreed : Option Bool

pub data Reason : Type 0 where
  auto_dismiss_disabled coverage_incomplete : Reason
  requirements_missing : Reason
  no_verdict_field verdict_differs confidence_below : Reason
  validator_unconfirmed validator_disputed : Reason
  flagged_for_human no_justification : Reason

pub record GateDecision : Type 0 where
  pub allowed : Bool
  pub reasons : List Reason

pub record DismissalGate : Type 0 where
  pub enabled : Bool
  pub requirements : Requirements
  pub coverage_complete : Bool

abbrev pub refuse : Reason → GateDecision
refuse reason = record { allowed = false; reasons = reason ∷ [] }

-- All of `REQUIRED_GATE_KEYS` are there.
abbrev pub is_stated : Requirements → Bool
is_stated r = is_some r.verdict && (is_some r.confidence_min && is_some r.validator_agreed)

abbrev same_verdict : Option VerdictName → Option VerdictName → Bool
same_verdict none none = true
same_verdict none (some b) = false
same_verdict (some a) none = false
same_verdict (some a) (some b) = verdict_beq a b

abbrev flatten_value : Option (Option VerdictName) → Option VerdictName
flatten_value none = none
flatten_value (some v) = v

-- `if test: blockers.append(reason)`
abbrev blocker : Bool → Reason → List Reason
blocker test reason = if test then reason ∷ [] else []

abbrev pub says_not_affected : Option VerdictName → Bool
says_not_affected (some VerdictName.not_affected) = true
says_not_affected _ = false

-- `validated is not True`, and the word for its state.
abbrev unvalidated : Option Bool → List Reason
unvalidated none = validator_unconfirmed ∷ []
unvalidated (some false) = validator_disputed ∷ []
unvalidated (some true) = []

module _ (required : Requirements) (doc : VerdictDoc) (validated : Option Bool) where
  absent_field : List Reason
  absent_field = blocker (not (is_some doc.verdict)) no_verdict_field

  other_verdict : List Reason
  other_verdict =
      blocker (not (same_verdict (verdict_of doc) (flatten_value required.verdict))) verdict_differs

  low_confidence : List Reason
  low_confidence =
      blocker (ltb (or_default doc.confidence 0) (or_default required.confidence_min 0))
        confidence_below

  no_agreement : List Reason
  no_agreement = if or_default required.validator_agreed false then unvalidated validated else []

  flagged : List Reason
  flagged = blocker doc.needs_human flagged_for_human

  unjustified : List Reason
  unjustified =
      blocker (says_not_affected (verdict_of doc) && not (is_given doc.vex_justification))
        no_justification

  -- `blockers`, as the source appends to it.
  unfoldable pub blockers : List Reason
  unfolding absent_field other_verdict low_confidence no_agreement flagged unjustified
  blockers =
      absent_field
      ++ (other_verdict ++ (low_confidence ++ (no_agreement ++ (flagged ++ unjustified))))

abbrev pub decide : List Reason → GateDecision
decide [] = record { allowed = true; reasons = [] }
decide (r ∷ rs) = record { allowed = false; reasons = r ∷ rs }

-- `DismissalGate.evaluate`
unfoldable pub evaluate : DismissalGate → VerdictDoc → Option Bool → GateDecision
evaluate gate doc validated =
    if not gate.enabled
    then refuse auto_dismiss_disabled
    else if not gate.coverage_complete
    then refuse coverage_incomplete
    else if not (is_stated gate.requirements)
    then refuse requirements_missing
    else decide (blockers gate.requirements doc validated)

-- Every clause of the gate, each one satisfied explicitly.
pub record IsCleared (gate : DismissalGate) (doc : VerdictDoc) (validated : Option Bool)
    : Type 0 where
  pub enabled : gate.enabled ≡ true
  pub covered : gate.coverage_complete ≡ true
  pub required : Option VerdictName
  pub minimum : Score
  pub wants_agreement : Bool
  pub states_verdict : gate.requirements.verdict ≡ some required
  pub states_minimum : gate.requirements.confidence_min ≡ some minimum
  pub states_agreement : gate.requirements.validator_agreed ≡ some wants_agreement
  pub verdict : doc.verdict ≡ some required
  pub confidence : minimum ≤ or_default doc.confidence 0
  pub agreed : wants_agreement ≡ true → validated ≡ some true
  pub unflagged : doc.needs_human ≡ false
  pub justified :
      doc.verdict ≡ some (some VerdictName.not_affected) → is_given doc.vex_justification ≡ true
