-- ===== src/Verdict.antt =====
-- The verdict document that every stage passes on (harness/schemas/verdict.json, and the `dict`s
-- that harness/stages build and read). A string that the code compares with a fixed vocabulary is
-- decoded: each known word is a constructor, and any other string is kept under `other`.
use dependabot_harness.Prelude.{
  ℕ, ◌≡◌, ◌↔◌, Bool, true, false, not, String, Option, none, some, List, arith, eq_iff, ◌==◌,
  string_eq, Eq, Text,
}
use dependabot_harness.Alert.{Score}

pub data VerdictName : Type 0 where
  not_affected affected fixed could_not_determine : VerdictName
  other : String → VerdictName

pub data VexStatus : Type 0 where
  not_affected affected fixed under_investigation : VexStatus
  other : String → VexStatus

-- The five CISA codes, and whatever else a model may write.
pub data Justification : Type 0 where
  component_not_present vulnerable_code_not_present : Justification
  vulnerable_code_not_in_execute_path : Justification
  vulnerable_code_cannot_be_controlled_by_adversary : Justification
  inline_mitigations_already_exist : Justification
  other : String → Justification

abbrev pub verdict_beq : VerdictName → VerdictName → Bool
verdict_beq VerdictName.not_affected VerdictName.not_affected = true
verdict_beq VerdictName.affected VerdictName.affected = true
verdict_beq VerdictName.fixed VerdictName.fixed = true
verdict_beq could_not_determine could_not_determine = true
verdict_beq (VerdictName.other s) (VerdictName.other t) = s == t
verdict_beq _ _ = false

pub verdict_beq_iff : (a b : VerdictName) → (verdict_beq a b ≡ true) ↔ (a ≡ b)
verdict_beq_iff (VerdictName.other s) (VerdictName.other t) = ground (arith, eq_iff s t)
verdict_beq_iff a b = ground arith

instance abbrev pub verdict_eq : Eq VerdictName
verdict_eq = record { same = verdict_beq; same_iff = verdict_beq_iff }

abbrev pub justification_beq : Justification → Justification → Bool
justification_beq component_not_present component_not_present = true
justification_beq vulnerable_code_not_present vulnerable_code_not_present = true
justification_beq vulnerable_code_not_in_execute_path vulnerable_code_not_in_execute_path = true
justification_beq vulnerable_code_cannot_be_controlled_by_adversary
      vulnerable_code_cannot_be_controlled_by_adversary =
    true
justification_beq inline_mitigations_already_exist inline_mitigations_already_exist = true
justification_beq (Justification.other s) (Justification.other t) = s == t
justification_beq _ _ = false

pub justification_beq_iff : (a b : Justification) → (justification_beq a b ≡ true) ↔ (a ≡ b)
justification_beq_iff (Justification.other s) (Justification.other t) = ground (arith, eq_iff s t)
justification_beq_iff a b = ground arith

instance abbrev pub justification_eq : Eq Justification
justification_eq = record { same = justification_beq; same_iff = justification_beq_iff }

-- `bool(verdict.get("vex_justification"))`: an absent, null or empty code is no code.
abbrev pub is_given : Option Justification → Bool
is_given none = false
is_given (some (Justification.other s)) = not (s == "")
is_given (some _) = true

-- One entry of `evidence_cited`. A line below 1 is read as 0.
pub record Citation : Type 0 where
  pub file : String
  pub line : ℕ

-- The keys that the code reads. `verdict`, `ghsa_id` and `cve_id` tell an absent key (`none`) from a
-- null (`some none`); of the others the code does not, but for a null confidence, which is not in the
-- model: there `float` raises.
pub record VerdictDoc : Type 0 where
  pub alert_key : String
  pub verdict : Option (Option VerdictName)
  pub vex_status : Option VexStatus
  pub vex_justification : Option Justification
  pub reachability_confirmed : Bool
  pub confidence : Option Score
  pub production_reachable : Option Bool
  pub severity_adjusted : Option String
  pub severity_rationale : Option Text
  pub evidence_cited : List Citation
  pub recommended_action : Option Text
  pub unknowns : List Text
  pub needs_human : Bool
  pub decided_by : Option String
  pub rule_id : Option String
  pub inherited_from : Option String
  pub tool_calls_used : ℕ
  pub ghsa_id : Option (Option String)
  pub cve_id : Option (Option String)

-- `verdict.get("verdict")`
abbrev pub verdict_of : VerdictDoc → Option VerdictName
verdict_of doc = elim doc.verdict [ none ↦ none | some v ↦ v ]

-- `verdict.get("verdict") in {"not_affected", "fixed"}`
abbrev pub is_dismissing : Option VerdictName → Bool
is_dismissing (some VerdictName.not_affected) = true
is_dismissing (some VerdictName.fixed) = true
is_dismissing _ = false
