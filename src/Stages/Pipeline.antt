-- ===== src/Stages/Pipeline.antt =====
-- The stages together, as steps on one database: `_execute` of harness/cli.py runs them in order,
-- run after run, and any number of alerts at each; here they come in any order. The steps carry a
-- record, which is not in the program, of the reviews that the validate stage has made.
pub mod Unconfirmed
pub mod Copies
pub mod Confirmed
use dependabot_harness.Prelude.{
  ℕ, ◌≡◌, Bool, true, String, Option, none, some, List, [], ◌∷◌, In, ok, Result,
}
use dependabot_harness.Alert.{AlertRecord}
use dependabot_harness.Verdict.{VerdictDoc}
use dependabot_harness.Ecosystem.{ReachabilityResult}
use dependabot_harness.Validation.{Checkout}
use dependabot_harness.Validation.Checks.{IsAccepted}
use dependabot_harness.Database.{
  Database, Status, VerdictRow, evidence, stage_payload, latest_verdict,
}
use dependabot_harness.Policy.Context.{RuleOutcome}
use dependabot_harness.Stages.Ingest.{Sources, RawAlert, ingest_repo}
use dependabot_harness.Stages.Recon.{ReconStage, RepoReconResult, run_repo}
use dependabot_harness.Stages.Evidence.{EvidenceBundle, Tools, evidence_repo, database_after}
use dependabot_harness.Stages.Policy
use dependabot_harness.Stages.Judgment.{LoopEnd, judge, record_verdict}
use dependabot_harness.Stages.Validate.{ValidationReport, Response, bundle_of, validate_alert}
use dependabot_harness.Stages.Dedup.{propagate_verdicts}
use dependabot_harness.Emit.Dismissal.{DismissalGate}
use dependabot_harness.Stages.Emit.{Github, EmitState, emit_repo}

-- One verdict that the validate stage looked at, with what it looked at.
pub record Review : Type 0 where
  pub alert : AlertRecord
  pub doc : VerdictDoc
  pub bundle : Option ReachabilityResult
  pub root : Option Checkout
  pub response : Option Response

pub record World : Type 0 where
  pub db : Database
  pub reviews : List Review

abbrev pub with_db : World → Database → World
with_db w db = record { db = db; reviews = w.reviews }

module _ (schema_ok : VerdictDoc → Bool) where
  -- Each stage's writes. `other_step` stands for what leaves the verdicts alone: the
  -- ledger, the clusters, and stage records.
  pub data Step : World → World → Type 0 where
    ingest_step :
        {w : World} (sources : Sources) (ttl : ℕ) (run repo sha hash : String) (now : ℕ)
        (alerts : List RawAlert)
        → Step w (with_db w (ingest_repo sources ttl run repo sha hash now alerts w.db).0)
    recon_step :
        {w : World} (stage : ReconStage) (run repo : String) (now : ℕ) (result : RepoReconResult)
        (after : Database)
        → run_repo stage run repo now w.db ≡ ok (result, after)
        → Step w (with_db w after)
    evidence_step :
        {w : World} (valid : EvidenceBundle → Bool) (ensure : String → String → Result String Tools)
        (run repo : String) (now : ℕ)
        → Step w (with_db w (database_after (evidence_repo valid ensure run repo now w.db)))
    policy_step :
        {w : World} (run : String) (alert : AlertRecord) (o : Option RuleOutcome)
        (hash : Option String) (now : ℕ)
        → Step w (with_db w (Policy.record_outcome run alert o hash now w.db))
    judgment_step :
        {w : World} (run : String) (alert : AlertRecord) (end : LoopEnd) (hash : Option String)
        (now : ℕ)
        → Step w (with_db w (record_verdict run alert (judge schema_ok alert end) hash now w.db))
    validate_step :
        {w : World} (run : String) (alert : AlertRecord) (root : Option Checkout)
        (response : Option Response) (now : ℕ) (report : ValidationReport) (row : VerdictRow)
        → latest_verdict w.db alert.alert_key ≡ some row
        → Step w (record {
          db = (validate_alert schema_ok run alert root response now (w.db, report)).0;
          reviews =
              record {
                alert = alert;
                doc = row.verdict;
                bundle = bundle_of (stage_payload w.db run alert.alert_key evidence);
                root = root;
                response = response;
              }
              ∷ w.reviews;
        })
    propagate_step :
        {w : World} (run : String) (now : ℕ)
        → Step w (with_db w (propagate_verdicts run now w.db).0)
    emit_step :
        {w : World} (gate : DismissalGate) (github : Github) (run repo : String) (now : ℕ)
        → Step w (with_db w (emit_repo gate github run repo now w.db).db)
    other_step : {w : World} (db : Database) → db.verdicts ≡ w.db.verdicts → Step w (with_db w db)

  pub data Reach (start : World) : World → Type 0 where
    begin : Reach start start
    next : {v w : World} → Reach start v → Step v w → Reach start w

  -- A review that confirms a verdict: its mechanical checks pass and the validator agrees.
  pub record IsConfirming (doc : VerdictDoc) (review : Review) : Type 0 where
    pub same : review.doc ≡ doc
    pub accepted : IsAccepted schema_ok doc review.bundle review.root (some review.alert.ecosystem)
    pub response : Response
    pub answered : review.response ≡ some response
    pub agreed : response.agrees ≡ true

  abbrev pub Confirmed : World → VerdictDoc → Type 0
  Confirmed w doc = (review : Review) × In review w.reviews × IsConfirming doc review

  -- Every verdict marked as validated has been confirmed.
  abbrev pub IsHonest : World → Type 0
  IsHonest w =
      (row : VerdictRow)
      → In row w.db.verdicts
      → row.validated ≡ some true
      → Confirmed w row.verdict
