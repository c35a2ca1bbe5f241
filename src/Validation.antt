-- ===== src/Validation.antt =====
-- harness/validation/mechanical.py: the checks of stage 7a. Outside the model are the JSON schema
-- (`schema_ok`, jsonschema's answer) and the checkout's files (`Checkout`).
pub mod Checks
use dependabot_harness.Prelude.{
  ℕ, Bool, true, false, not, ◌&&◌, ◌||◌, String, Option, none, some, List, [], ◌∷◌, ◌++◌, all, map,
  ltb, or_default, ◌==◌, string_eq, Text, if◌then◌else◌,
}
use dependabot_harness.Alert.{Score}
use dependabot_harness.Verdict.{
  VerdictDoc, VexStatus, Justification, Citation, verdict_of, is_dismissing,
}
use dependabot_harness.Ecosystem.{
  ReachabilityResult, level_value, is_failure, get_adapter, confidence_ceiling,
}

pub data Check : Type 0 where
  schema vex_justification confidence_ceiling_check reachability_contradiction : Check
  citations citation_path citation_line : Check

pub record CheckResult : Type 0 where
  pub check : Check
  pub passed : Bool

abbrev pub result : Check → Bool → CheckResult
result check passed = record { check = check; passed = passed }

-- `MechanicalReport.passed`
unfoldable pub report_passed : List CheckResult → Bool
report_passed = all (λ r. r.passed)

-- What `_resolve`, `is_file` and reading give for a cited path: nothing inside the checkout, a file
-- that cannot be read, or one with so many lines.
pub data FileState : Type 0 where
  missing unreadable : FileState
  has_lines : ℕ → FileState

abbrev pub Checkout : Type 0
Checkout = String → FileState

-- `CISA_JUSTIFICATIONS`
abbrev pub is_cisa : Option Justification → Bool
is_cisa none = false
is_cisa (some (Justification.other s)) = false
is_cisa (some _) = true

abbrev pub status_not_affected : Option VexStatus → Bool
status_not_affected (some VexStatus.not_affected) = true
status_not_affected _ = false

-- `_justification`
check_justification : VerdictDoc → CheckResult
check_justification doc =
    result vex_justification
      (if not (status_not_affected doc.vex_status) then true else is_cisa doc.vex_justification)

ceiling_passes : Score → Option Text → Bool
ceiling_passes confidence none = true
ceiling_passes confidence (some ecosystem) = elim (get_adapter ecosystem) [
  | none ↦ true
  | some adapter ↦ not (ltb (confidence_ceiling adapter) confidence)
]

-- `_confidence_ceiling`
check_ceiling : VerdictDoc → Option Text → CheckResult
unfolding ceiling_passes
check_ceiling doc ecosystem =
    result confidence_ceiling_check (ceiling_passes (or_default doc.confidence 0) ecosystem)

contradicts : ReachabilityResult → Bool
contradicts bundle = not (is_failure bundle) && not (ltb (level_value bundle.level) 4)

-- `_contradiction`
check_contradiction : VerdictDoc → Option ReachabilityResult → CheckResult
unfolding contradicts
check_contradiction doc none = result reachability_contradiction true
check_contradiction doc (some bundle) =
    result reachability_contradiction
      (if not (is_dismissing (verdict_of doc)) then true else not (contradicts bundle))

check_line : FileState → ℕ → CheckResult
check_line missing line = result citation_path false
check_line unreadable line = result citation_path false
check_line (has_lines total) line = result citation_line (not (ltb line 1 || ltb total line))

check_citation : Checkout → Citation → CheckResult
unfolding check_line
check_citation root citation = check_line (root citation.file) citation.line

-- `_citations`
check_citations : VerdictDoc → List Citation → Option Checkout → List CheckResult
unfolding check_citation
check_citations doc [] root = result citations true ∷ []
check_citations doc (c ∷ cs) none = result citations (not (is_dismissing (verdict_of doc))) ∷ []
check_citations doc (c ∷ cs) (some root) = map (check_citation root) (c ∷ cs)

-- `check_verdict`
unfoldable pub check_verdict :
    (VerdictDoc → Bool)
    → VerdictDoc
    → Option ReachabilityResult
    → Option Checkout
    → Option Text
    → List CheckResult
unfolding check_justification check_ceiling check_contradiction check_citations
check_verdict schema_ok doc bundle root ecosystem =
    result schema (schema_ok doc)
    ∷ check_justification doc
    ∷ check_ceiling doc ecosystem
    ∷ check_contradiction doc bundle
    ∷ check_citations doc doc.evidence_cited root
