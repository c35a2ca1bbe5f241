-- ===== src/Stages/Validate.antt =====
-- harness/stages/validate.py: mechanical checks, then the adversarial agent's answer.
pub mod Confirmed
use dependabot_harness.Prelude.{
  ℕ, ◌+◌, Bool, true, false, not, ◌&&◌, String, Option, none, some, List, [], ◌∷◌, ◌++◌, Text,
  codes, if◌then◌else◌,
}
use dependabot_harness.Alert.{AlertRecord}
use dependabot_harness.Verdict.{VerdictDoc}
use dependabot_harness.Ecosystem.{ReachabilityResult}
use dependabot_harness.Validation.{CheckResult, report_passed, Checkout, check_verdict}
use dependabot_harness.Database.{
  Database, Stage, Status, validate, judgment, evidence, done, failed, Payload, validation, bundle,
  stage_write, record_stage, is_stage_complete, stage_status, stage_payload, put_verdict,
  latest_verdict, VerdictRow,
}

pub record ValidationReport : Type 0 where
  pub checked : ℕ
  pub mechanically_rejected : ℕ
  pub agreed : ℕ
  pub disputed : ℕ
  pub validator_unavailable : ℕ
  pub human_queue : List String

-- The validator's response: `agrees`, and `strongest_objection`.
pub record Response : Type 0 where
  pub agrees : Bool
  pub objection : Text

-- `_adversarial`: no client, no budget, or a failed call give no response.
unfoldable pub adversarial : Bool → Bool → Option Response → Option Response
adversarial has_client allowed response =
    if not has_client then none else if not allowed then none else response

-- The decoded `stage_payload(..., "evidence")`.
abbrev pub bundle_of : Option Payload → Option ReachabilityResult
bundle_of (some (bundle r)) = some r
bundle_of _ = none

-- `_record`
pub record_validation :
    String
    → AlertRecord
    → VerdictDoc
    → Option String
    → Status
    → Payload
    → Option Bool
    → Text
    → ℕ
    → Database
    → Database
record_validation run alert doc hash status payload validated notes now db =
    put_verdict alert.alert_key run doc validated (some notes) hash now
      (record_stage run alert.alert_key validate (stage_write status (some payload)) now db)

-- `_settle`
pub settle :
    String
    → AlertRecord
    → VerdictDoc
    → Option String
    → Option Response
    → ℕ
    → Database × ValidationReport
    → Database × ValidationReport
unfolding record_validation
settle run alert doc hash none now (db, report) = (
  record_validation run alert doc hash done (validation true none) none
      (codes "validator unavailable; verdict is unconfirmed") now db,
  record report {
    validator_unavailable = report.validator_unavailable + 1;
    human_queue = report.human_queue ++ alert.alert_key ∷ [];
  },
)
settle run alert doc hash (some response) now (db, report) = (
  record_validation run alert doc hash done (validation true (some response.agrees))
      (some response.agrees) response.objection now db,
  (if response.agrees then record report { agreed = report.agreed + 1 } else record report {
    disputed = report.disputed + 1;
    human_queue = report.human_queue ++ alert.alert_key ∷ [];
  }),
)

-- What follows the mechanical checks, which passed or did not.
pub conclude :
    Bool
    → String
    → AlertRecord
    → VerdictDoc
    → Option String
    → Option Response
    → ℕ
    → Database × ValidationReport
    → Database × ValidationReport
unfolding settle record_validation
conclude true run alert doc hash response now (db, report) =
    settle run alert doc hash response now (db, report)
conclude false run alert doc hash response now (db, report) = (
  record_validation run alert doc hash failed (validation false none) (some false) [] now db,
  record report {
    mechanically_rejected = report.mechanically_rejected + 1;
    human_queue = report.human_queue ++ alert.alert_key ∷ [];
  },
)

-- The loop's body for a stored verdict.
unfoldable pub validate_row :
    (VerdictDoc → Bool)
    → String
    → AlertRecord
    → Option Checkout
    → Option Response
    → ℕ
    → VerdictRow
    → Database × ValidationReport
    → Database × ValidationReport
unfolding conclude
validate_row schema_ok run alert root response now row (db, report) =
    let found = bundle_of (stage_payload db run alert.alert_key evidence) in
    conclude (report_passed (check_verdict schema_ok row.verdict found root (some alert.ecosystem)))
      run alert row.verdict row.structure_hash response now
      (db, record report { checked = report.checked + 1 })

-- The body of the loop in `run_repo`.
unfoldable pub validate_alert :
    (VerdictDoc → Bool)
    → String
    → AlertRecord
    → Option Checkout
    → Option Response
    → ℕ
    → Database × ValidationReport
    → Database × ValidationReport
unfolding validate_row
validate_alert schema_ok run alert root response now (db, report) =
    elim (latest_verdict db alert.alert_key) [
      | none ↦ (db, report)
      | some row ↦ validate_row schema_ok run alert root response now row (db, report)
    ]

-- `_needs_validation`
pub needs_validation : Database → String → AlertRecord → Bool
needs_validation db run alert =
    not (is_stage_complete db run alert.alert_key validate)
    && elim (stage_status db run alert.alert_key judgment) [
      | none ↦ false
      | some status ↦ elim status [ done ↦ true | _ ↦ false ]
    ]
