-- ===== src/Stages/Validate/Confirmed.antt =====
-- Which verdicts the validate stage marks as validated.
use dependabot_harness.Prelude.{
  ℕ, ◌≡◌, refl, ap, Bool, true, false, String, Option, none, some, arith, In, ◌⊎◌, inl, inr, Text,
}
use dependabot_harness.Alert.{AlertRecord}
use dependabot_harness.Verdict.{VerdictDoc}
use dependabot_harness.Validation.{Checkout, report_passed, check_verdict}
use dependabot_harness.Database.{
  Database, Status, Payload, VerdictRow, verdict_row, evidence, stage_payload, record_stage,
}
use dependabot_harness.Database.Members.{In-put_verdict}
use dependabot_harness.Stages.Validate.{
  ValidationReport, Response, bundle_of, record_validation, settle, conclude, validate_row,
}

-- What a row says after the stage, when it was not there before.
pub record IsReviewed (passed : Bool) (response : Option Response) (doc : VerdictDoc)
    (row : VerdictRow) : Type 0 where
  pub same : row.verdict ≡ doc
  pub confirmed :
      row.validated ≡ some true
      → (passed ≡ true) × ((r : Response) × (response ≡ some r) × (r.agrees ≡ true))

record_validation-In :
    (run : String) (alert : AlertRecord) (doc : VerdictDoc) (hash : Option String) (status : Status)
    (payload : Payload) (validated : Option Bool) (notes : Text) (now : ℕ) (db : Database)
    (row : VerdictRow)
    → In row (record_validation run alert doc hash status payload validated notes now db).verdicts
    → In row db.verdicts ⊎ ((row.verdict ≡ doc) × (row.validated ≡ validated))
unfolding record_validation record_stage verdict_row
record_validation-In run alert doc hash status payload validated notes now db row m =
    elim (In-put_verdict _ run doc validated (some notes) hash now _ row m) [
      | inl new ↦ inr (ap (λ r. r.verdict) new, ap (λ r. r.validated) new)
      | inr old ↦ inl old
    ]

settle-In :
    (run : String) (alert : AlertRecord) (doc : VerdictDoc) (hash : Option String)
    (response : Option Response) (now : ℕ) (db : Database) (report : ValidationReport)
    (row : VerdictRow)
    → In row (settle run alert doc hash response now (db, report)).0.verdicts
    → In row db.verdicts ⊎ IsReviewed true response doc row
unfolding settle
settle-In run alert doc hash none now db report row m =
    elim (record_validation-In run alert doc hash _ _ none _ now db row m) [
      | inl old ↦ inl old
      | inr (same, v) ↦ inr (record { same = same; confirmed = λ h. ground (arith, v, h) })
    ]
settle-In run alert doc hash (some response) now db report row m =
    elim (record_validation-In run alert doc hash _ _ (some response.agrees) _ now db row m) [
      | inl old ↦ inl old
      | inr (same, v) ↦
          inr (record {
            same = same;
            confirmed = λ h. (refl, (response, refl, ground (arith, v, h)));
          })
    ]

conclude-In :
    (passed : Bool) (run : String) (alert : AlertRecord) (doc : VerdictDoc) (hash : Option String)
    (response : Option Response) (now : ℕ) (db : Database) (report : ValidationReport)
    (row : VerdictRow)
    → In row (conclude passed run alert doc hash response now (db, report)).0.verdicts
    → In row db.verdicts ⊎ IsReviewed passed response doc row
unfolding conclude
conclude-In true run alert doc hash response now db report row m =
    settle-In run alert doc hash response now db report row m
conclude-In false run alert doc hash response now db report row m =
    elim (record_validation-In run alert doc hash _ _ (some false) _ now db row m) [
      | inl old ↦ inl old
      | inr (same, v) ↦ inr (record { same = same; confirmed = λ h. ground (arith, v, h) })
    ]

-- A row after the stage was there before, or holds the verdict that was reviewed; it says
-- `validated` only if the mechanical checks passed and the validator's response agrees.
pub validate_row-In :
    (schema_ok : VerdictDoc → Bool) (run : String) (alert : AlertRecord) (root : Option Checkout)
    (response : Option Response) (now : ℕ) (stored : VerdictRow) (db : Database)
    (report : ValidationReport) (row : VerdictRow)
    → In row (validate_row schema_ok run alert root response now stored (db, report)).0.verdicts
    → In row db.verdicts
      ⊎ IsReviewed
          (report_passed (
            check_verdict schema_ok stored.verdict
              (bundle_of (stage_payload db run alert.alert_key evidence))
              root
              (some alert.ecosystem)))
          response
          stored.verdict
          row
unfolding validate_row
validate_row-In schema_ok run alert root response now stored db report row m =
    conclude-In _ run alert stored.verdict stored.structure_hash response now db _ row m
