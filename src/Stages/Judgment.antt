-- ===== src/Stages/Judgment.antt =====
-- harness/stages/judgment.py: what becomes of the agent loop's end, and the record of a verdict.
use dependabot_harness.Prelude.{
  ℕ, Bool, true, false, not, ◌&&◌, String, Option, none, some, [], ◌∷◌, Text, codes, if◌then◌else◌,
  or_default,
}
use dependabot_harness.Alert.{AlertRecord}
use dependabot_harness.Verdict.{could_not_determine, under_investigation, VerdictDoc, verdict_of}
use dependabot_harness.Database.{
  Database, Status, judgment, evidence, done, failed, judged, stage_write, record_stage,
  is_stage_complete, stage_status, put_verdict,
}

-- `undetermined_verdict`
unfoldable pub undetermined_verdict : AlertRecord → Text → ℕ → VerdictDoc
undetermined_verdict alert reason tool_calls = record {
  alert_key = alert.alert_key;
  verdict = some (some could_not_determine);
  vex_status = some under_investigation;
  vex_justification = none;
  reachability_confirmed = false;
  confidence = some 0;
  production_reachable = none;
  severity_adjusted = alert.severity;
  severity_rationale = some reason;
  evidence_cited = [];
  recommended_action = some (codes "human review required");
  unknowns = reason ∷ [];
  needs_human = true;
  decided_by = some "judgment";
  rule_id = none;
  inherited_from = none;
  tool_calls_used = tool_calls;
  ghsa_id = none;
  cve_id = none;
}

-- How the agent loop ends: an exception by its class, the spent tool budget, or an answer, whose
-- text may hold no JSON object. Each with the number of tool calls used.
pub data LoopEnd : Type 0 where
  ceiling_exceeded model_failed : LoopEnd
  cap_reached : ℕ → LoopEnd
  answered : Option VerdictDoc → ℕ → LoopEnd

-- The keys that `_judge` sets on an answer. (`setdefault` keeps a `decided_by` that is there.)
abbrev pub stamped : AlertRecord → ℕ → VerdictDoc → VerdictDoc
stamped alert used doc = record doc {
  alert_key = alert.alert_key;
  decided_by = some (or_default doc.decided_by "judgment");
  tool_calls_used = used;
}

-- `_judge`, from the loop's end; `schema_ok` is jsonschema's answer.
unfoldable pub judge : (VerdictDoc → Bool) → AlertRecord → LoopEnd → VerdictDoc × Status
judge schema_ok alert ceiling_exceeded =
    (undetermined_verdict alert (codes "context assembly exceeded the ceiling") 0, failed)
judge schema_ok alert model_failed =
    (undetermined_verdict alert (codes "model call failed") 0, failed)
judge schema_ok alert (cap_reached used) = (
  undetermined_verdict alert (codes "exhausted the tool budget without reaching a conclusion") used,
  done,
)
judge schema_ok alert (answered none used) =
    (undetermined_verdict alert (codes "unparsable verdict") 0, failed)
judge schema_ok alert (answered (some doc) used) =
    if schema_ok (stamped alert used doc)
    then (stamped alert used doc, done)
    else (undetermined_verdict alert (codes "verdict failed schema validation") 0, failed)

-- `_needs_judgment`
pub needs_judgment : Database → String → AlertRecord → Bool
needs_judgment db run alert =
    not (is_stage_complete db run alert.alert_key judgment)
    && elim (stage_status db run alert.alert_key evidence) [
      | none ↦ false
      | some status ↦ elim status [ done ↦ true | _ ↦ false ]
    ]

-- The writes of `_record`.
unfoldable pub record_verdict :
    String → AlertRecord → VerdictDoc × Status → Option String → ℕ → Database → Database
record_verdict run alert (doc, status) hash now db =
    put_verdict alert.alert_key run doc none none hash now (
      record_stage run alert.alert_key judgment
        (stage_write status (some (judged (verdict_of doc) doc.tool_calls_used))) now db)
