-- ===== src/Stages/Pipeline/Confirmed.antt =====
-- What the stages guarantee together: no verdict reaches GitHub without a review that confirms it.
use dependabot_harness.Prelude.{
  ℕ, ◌≡◌, refl, sym, ap, ◌∙◌, subst, Bool, true, String, Option, some, ◌∷◌, arith, or_default, In,
  here, there, inl, inr,
}
use dependabot_harness.Alert.{AlertRecord}
use dependabot_harness.Verdict.{VerdictDoc}
use dependabot_harness.Validation.{Checkout}
use dependabot_harness.Validation.Checks.{IsAccepted, check_verdict_iff}
use dependabot_harness.Database.{Database, VerdictRow, evidence, stage_payload}
use dependabot_harness.Database.Members.{latest_verdict-In}
use dependabot_harness.Emit.Dismissal.{DismissalGate}
use dependabot_harness.Stages.Policy
use dependabot_harness.Stages.Dedup.{propagate_verdicts}
use dependabot_harness.Stages.Judgment.{judge, record_verdict}
use dependabot_harness.Stages.Validate.{
  ValidationReport, Response, bundle_of, validate_row, validate_alert,
}
use dependabot_harness.Stages.Validate.Confirmed.{validate_row-In}
use dependabot_harness.Stages.Emit.{DismissCall, Github, emit_repo}
use dependabot_harness.Stages.Emit.Dismissals.{IsLicensed, emit_repo-IsLicensed, emit_repo_verdicts}
use dependabot_harness.Stages.Ingest.{ingest_repo}
use dependabot_harness.Stages.Recon.Allowed.{IsCharged, run_repo-IsCharged}
use dependabot_harness.Stages.Pipeline.Copies.{OnlyCopies, ingest_repo-OnlyCopies}
use dependabot_harness.Stages.Evidence.{pending, evidence_repo, database_after}
use dependabot_harness.Stages.Evidence.Shallow.{evidence_repo-IsEnded, IsEnded-verdicts}
use dependabot_harness.Stages.Pipeline.{
  World, with_db, Step, ingest_step, recon_step, evidence_step, policy_step, judgment_step,
  validate_step, propagate_step, emit_step, other_step, Reach, begin, next, Confirmed, IsHonest,
}
use dependabot_harness.Stages.Pipeline.Unconfirmed.{
  OnlyUnconfirmed, policy-OnlyUnconfirmed, judgment-OnlyUnconfirmed, propagate-OnlyUnconfirmed,
}

module _ (schema_ok : VerdictDoc → Bool) where
  unconfirmed-IsHonest :
      (w : World) (db : Database)
      → IsHonest schema_ok w
      → OnlyUnconfirmed w.db db
      → IsHonest schema_ok (with_db w db)
  unconfirmed-IsHonest w db honest only row m valid = elim (only row m) [
    | inl old ↦ honest row old valid
    | inr open_row ↦ ground (arith, valid, open_row)
  ]

  validate-IsHonest :
      (w : World) (run : String) (alert : AlertRecord) (root : Option Checkout)
      (response : Option Response) (now : ℕ) (report : ValidationReport) (stored : VerdictRow)
      → IsHonest schema_ok w
      → IsHonest schema_ok (record {
        db = (validate_row schema_ok run alert root response now stored (w.db, report)).0;
        reviews =
            record {
              alert = alert;
              doc = stored.verdict;
              bundle = bundle_of (stage_payload w.db run alert.alert_key evidence);
              root = root;
              response = response;
            }
            ∷ w.reviews;
      })
  validate-IsHonest w run alert root response now report stored honest row m valid =
      elim (validate_row-In schema_ok run alert root response now stored w.db report row m) [
        | inl old ↦
            let (review, made, confirms) = honest row old valid in (review, there made, confirms)
        | inr reviewed ↦
            let (passed, (answer, answered, agrees)) = reviewed.confirmed valid in
            (
              _,
              here refl,
              record {
                same = sym reviewed.same;
                accepted =
                    subst
                      (λ doc.
                        IsAccepted schema_ok doc
                          (bundle_of (stage_payload w.db run alert.alert_key evidence)) root
                          (some alert.ecosystem))
                      (sym reviewed.same)
                      ((check_verdict_iff schema_ok stored.verdict _ root (some alert.ecosystem)).0
                        passed);
                response = answer;
                answered = answered;
                agreed = agrees;
              },
            )
      ]

  copies-IsHonest :
      (w : World) (db : Database)
      → IsHonest schema_ok w
      → OnlyCopies w.db db
      → IsHonest schema_ok (with_db w db)
  copies-IsHonest w db honest only row m valid =
      let (old, listed, says, judged) = only row m in
      subst (Confirmed schema_ok w) (sym says) (honest old listed (sym judged ∙ valid))

  Step-IsHonest : {v w : World} → Step schema_ok v w → IsHonest schema_ok v → IsHonest schema_ok w
  unfolding validate_alert
  Step-IsHonest (ingest_step {w = v} sources ttl run repo sha hash now alerts) honest =
      copies-IsHonest v (ingest_repo sources ttl run repo sha hash now alerts v.db).0 honest
        (ingest_repo-OnlyCopies sources ttl run sha hash now repo alerts v.db)
  Step-IsHonest (recon_step {w = v} stage run repo now result after ran) honest =
      let charged =
        subst (IsCharged stage repo v.db) ran (run_repo-IsCharged stage run repo now v.db) in
      copies-IsHonest v after honest (λ row m. (row, subst (In row) charged.0.1 m, refl, refl))
  Step-IsHonest (evidence_step {w = v} valid ensure run repo now) honest =
      let same =
        IsEnded-verdicts run (pending run repo v.db) v.db
          (evidence_repo valid ensure run repo now v.db)
          (evidence_repo-IsEnded valid ensure run repo now v.db) in
      copies-IsHonest v (database_after (evidence_repo valid ensure run repo now v.db)) honest
        (λ row m. (row, subst (In row) same m, refl, refl))
  Step-IsHonest (policy_step {w = v} run alert o hash now) honest =
      unconfirmed-IsHonest v (Policy.record_outcome run alert o hash now v.db) honest
        (policy-OnlyUnconfirmed run alert o hash now v.db)
  Step-IsHonest (judgment_step {w = v} run alert end hash now) honest =
      unconfirmed-IsHonest v (record_verdict run alert (judge schema_ok alert end) hash now v.db)
        honest (judgment-OnlyUnconfirmed run alert (judge schema_ok alert end) hash now v.db)
  Step-IsHonest (validate_step {w = v} run alert root response now report stored found) honest =
      rw (validate_alert, found)
        (validate-IsHonest v run alert root response now report stored honest)
  Step-IsHonest (propagate_step {w = v} run now) honest =
      unconfirmed-IsHonest v (propagate_verdicts run now v.db).0 honest
        (propagate-OnlyUnconfirmed run now v.db)
  Step-IsHonest (emit_step {w = v} gate github run repo now) honest =
      unconfirmed-IsHonest v (emit_repo gate github run repo now v.db).db honest
        (λ row m. inl (subst (In row) (emit_repo_verdicts gate github run repo now v.db) m))
  Step-IsHonest (other_step {w = v} db same) honest =
      unconfirmed-IsHonest v db honest (λ row m. inl (subst (In row) same m))

  -- From a database whose validated verdicts are confirmed, the stages reach only such databases,
  -- in whatever order they run.
  pub Reach-IsHonest :
      {start w : World} → IsHonest schema_ok start → Reach schema_ok start w → IsHonest schema_ok w
  Reach-IsHonest honest begin = honest
  Reach-IsHonest honest (next before step) = Step-IsHonest step (Reach-IsHonest honest before)

-- A dismissal that reaches GitHub is confirmed. Where the gate wants the validator's agreement and
-- the database started with no validated verdict that nobody reviewed, every call that the emit
-- stage makes is for the latest verdict of an alert of the repository, the verdict meets each
-- clause of the gate, and the validate stage has reviewed that very verdict: its mechanical checks
-- passed, and the validator answered that it agrees.
pub emit_repo-Confirmed :
    (schema_ok : VerdictDoc → Bool) (start w : World) (gate : DismissalGate) (github : Github)
    (run repo : String) (now : ℕ) (call : DismissCall)
    → IsHonest schema_ok start
    → Reach schema_ok start w
    → gate.requirements.validator_agreed ≡ some true
    → In call (emit_repo gate github run repo now w.db).calls
    → IsLicensed gate repo w.db call × Confirmed schema_ok w call.comment_on
emit_repo-Confirmed schema_ok start w gate github run repo now call honest reach wants made =
    let licensed = emit_repo-IsLicensed gate github run repo now w.db call made in
    let cleared = licensed.cleared in
    let confirmed =
      Reach-IsHonest schema_ok honest reach licensed.stored
        (latest_verdict-In w.db licensed.alert.alert_key licensed.stored licensed.latest)
        (cleared.agreed (ap (λ o. or_default o true) (sym cleared.states_agreement ∙ wants))) in
    (licensed, subst (Confirmed schema_ok w) (sym (ap (λ c. c.comment_on) licensed.same)) confirmed)
