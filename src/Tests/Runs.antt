-- ===== src/Tests/Runs.antt =====
-- The stages together, from an alert to a dismissal.
use dependabot_harness.Prelude.{
  ℕ, ◌+◌, ◌≤◌, ◌≡◌, refl, sym, subst, ap, ◌∙◌, or_default, ◌==◌, string_eq, ◌++◌, Bool, true, false,
  String, Option, none, some, List, [], ◌∷◌, length, In, here, there, arith,
}
use dependabot_harness.Database.{
  Database, evidence, done, stage_write, record_stage, stage_payload, VerdictRow, verdict_row,
  put_verdict, alerts_for_repo, latest_verdict,
}
use dependabot_harness.Emit.Dismissal.{evaluate}
use dependabot_harness.Stages.Judgment.{answered, judge, record_verdict}
use dependabot_harness.Stages.Validate.{ValidationReport, Response, bundle_of, validate_alert}
use dependabot_harness.Stages.Emit.{
  RepoEmitResult, DismissCall, Github, EmitState, new_result, maybe_dismiss, emit_repo,
  already_dismissed, dismiss_call, verdict_rows,
}
use dependabot_harness.Stages.Emit.Dismissals.{IsLicensed, emit_repo_accounts, emit_repo-IsLicensed}
use dependabot_harness.Alert.{AlertRecord}
use dependabot_harness.Emit.Openvex.{statements_of}
use dependabot_harness.Emit.Openvex.Published.{IsPublished, advisory_of, emit_repo-IsPublished}
use dependabot_harness.Stages.Emit.Repeats.{
  Pass, pass_over, Later, start, pass, between, passes, dismissed_once, dismissed_twice,
}
use dependabot_harness.Stages.Pipeline.{
  World, Reach, begin, next, judgment_step, validate_step, Confirmed,
}
use dependabot_harness.Stages.Pipeline.Confirmed.{emit_repo-Confirmed}
use dependabot_harness.Tests.Samples.{
  go_alert, any_schema, cleared_doc, sample_checkout, open_gate, alert_db,
}

abbrev accepting : Github
accepting = some (λ call. true)

abbrev validated_row : VerdictRow
validated_row = verdict_row "k1" "r1" cleared_doc (some true) none none 5

abbrev decided_db : Database
decided_db = put_verdict "k1" "r1" cleared_doc (some true) none none 5 alert_db

abbrev emit_start : EmitState
emit_start = record { db = decided_db; result = new_result; calls = [] }

gate_opens : (evaluate open_gate validated_row.verdict validated_row.validated).allowed ≡ true
unfolding evaluate verdict_row dependabot_harness.Emit.Dismissal.blockers
gate_opens = refl

-- Two later runs, each with its own clock.
abbrev pass_of : String → ℕ → Pass
pass_of run now = record {
  gate = open_gate;
  github = accepting;
  run = run;
  repo = "org/app";
  stored = validated_row;
  now = now;
}

abbrev dismissing : EmitState
dismissing = maybe_dismiss open_gate accepting "r1" "org/app" go_alert validated_row 9 emit_start

abbrev second : EmitState
second = pass_over go_alert (pass_of "r2" 20) dismissing

-- The third run writes to a row of its own before it passes over the alert.
abbrev third : EmitState
third = record second { db = record_stage "r3" "k1" evidence (stage_write done none) 25 second.db }

unseen_since : Later go_alert "r1" dismissing.db third.db
unfolding maybe_dismiss evaluate verdict_row dependabot_harness.Emit.Dismissal.blockers put_verdict
    already_dismissed record_stage dependabot_harness.Prelude.Tables.upsert
    dependabot_harness.Stages.Emit.marks_dismissal dependabot_harness.Database.new_row
    dependabot_harness.Database.at_stage
unseen_since = between third.db (pass (pass_of "r2" 20) dismissing start refl) refl

dismissed_once_example : (pass_over go_alert (pass_of "r3" 30) third).calls ≡ third.calls
unfolding maybe_dismiss evaluate verdict_row dependabot_harness.Emit.Dismissal.blockers put_verdict
    already_dismissed
dismissed_once_example =
    dismissed_once open_gate accepting "org/app" go_alert validated_row 9 "r1" emit_start third
      (pass_of "r3" 30) refl unseen_since refl

dismissed_twice_example :
    (passes open_gate accepting "org/app" go_alert validated_row 9
      ("r1" ∷ "r1" ∷ "r1" ∷ [])
      emit_start).calls
    ≡ ([] ++ dismiss_call "org/app" go_alert validated_row ∷ [])
      ++ dismiss_call "org/app" go_alert validated_row ∷ []
unfolding already_dismissed put_verdict
dismissed_twice_example =
    dismissed_twice open_gate (λ call. true) "r1" "org/app" go_alert validated_row 9 emit_start
      gate_opens refl refl

emit_repo_accounts_example :
    let result = (emit_repo open_gate accepting "r1" "org/app" 9 decided_db).result in
    (result.dismissed + (result.dismissal_blocked + length result.errors) + result.undecided
      ≡ length (alerts_for_repo decided_db "org/app"))
    × (result.unexplained ≤ result.undecided)
emit_repo_accounts_example = emit_repo_accounts open_gate accepting "r1" "org/app" 9 decided_db

emit_repo-IsLicensed_example :
    IsLicensed open_gate "org/app" decided_db (dismiss_call "org/app" go_alert validated_row)
unfolding emit_repo dependabot_harness.Stages.Emit.dismiss_all alerts_for_repo put_verdict
    latest_verdict dependabot_harness.Prelude.Tables.upsert verdict_row maybe_dismiss
    already_dismissed evaluate dependabot_harness.Emit.Dismissal.blockers
emit_repo-IsLicensed_example =
    emit_repo-IsLicensed open_gate accepting "r1" "org/app" 9 decided_db
      (dismiss_call "org/app" go_alert validated_row) (here refl)

named :
    (a : AlertRecord) (v : VerdictRow)
    → In a (alerts_for_repo decided_db "org/app")
    → latest_verdict decided_db a.alert_key ≡ some v
    → (advisory_of a v.verdict == "") ≡ false
unfolding alerts_for_repo put_verdict latest_verdict verdict_row
    dependabot_harness.Prelude.Tables.upsert dependabot_harness.Database.newest
named a v m latest = elim m [
  | here same ↦
      let found : some validated_row ≡ some v =
        subst (λ (b : AlertRecord). latest_verdict decided_db b.alert_key ≡ some v) same latest in
      ap (λ (b : AlertRecord). advisory_of b v.verdict == "") same
      ∙ ap
          (λ (o : Option VerdictRow).
            advisory_of go_alert (or_default o validated_row).verdict == "")
          (sym found)
  | there later ↦ elim later [ ]
]

emit_repo-IsPublished_example :
    IsPublished "org/app" decided_db
      (statements_of (verdict_rows decided_db (alerts_for_repo decided_db "org/app")))
      (dismiss_call "org/app" go_alert validated_row)
unfolding emit_repo dependabot_harness.Stages.Emit.dismiss_all alerts_for_repo put_verdict
    latest_verdict dependabot_harness.Prelude.Tables.upsert verdict_row maybe_dismiss
    already_dismissed evaluate dependabot_harness.Emit.Dismissal.blockers
emit_repo-IsPublished_example =
    emit_repo-IsPublished open_gate accepting "r1" "org/app" 9 decided_db
      (dismiss_call "org/app" go_alert validated_row) refl named (here refl)

abbrev begun : World
begun = record { db = alert_db; reviews = [] }

abbrev judged_db : Database
judged_db =
    record_verdict "r1" go_alert (judge any_schema go_alert (answered (some cleared_doc) 2)) none 5
      alert_db

abbrev judged_row : VerdictRow
judged_row = verdict_row "k1" "r1" cleared_doc none none none 5

abbrev fresh_report : ValidationReport
fresh_report = record {
  checked = 0;
  mechanically_rejected = 0;
  agreed = 0;
  disputed = 0;
  validator_unavailable = 0;
  human_queue = [];
}

abbrev agreeing : Option Response
agreeing = some (record { agrees = true; objection = [] })

judged_latest : latest_verdict judged_db "k1" ≡ some judged_row
unfolding record_verdict judge latest_verdict put_verdict dependabot_harness.Prelude.Tables.upsert
    dependabot_harness.Database.record_stage verdict_row
judged_latest = refl

abbrev reviewed : World
reviewed = record {
  db =
      (validate_alert any_schema "r1" go_alert (some sample_checkout) agreeing 6
        (judged_db, fresh_report)).0;
  reviews =
      record {
        alert = go_alert;
        doc = cleared_doc;
        bundle = bundle_of (stage_payload judged_db "r1" "k1" evidence);
        root = some sample_checkout;
        response = agreeing;
      }
      ∷ [];
}

reaches_review : Reach any_schema begun reviewed
unfolding verdict_row
reaches_review =
    next (next begin (judgment_step "r1" go_alert (answered (some cleared_doc) 2) none 5)) (
      validate_step "r1" go_alert (some sample_checkout) agreeing 6 fresh_report judged_row
        judged_latest)

reviewed_call :
    In
      (dismiss_call "org/app" go_alert validated_row)
      (emit_repo open_gate accepting "r1" "org/app" 9 reviewed.db).calls
unfolding emit_repo dependabot_harness.Stages.Emit.dismiss_all alerts_for_repo put_verdict
    latest_verdict dependabot_harness.Prelude.Tables.upsert verdict_row maybe_dismiss
    already_dismissed evaluate dependabot_harness.Emit.Dismissal.blockers
    dependabot_harness.Database.record_stage judge record_verdict validate_alert
    dependabot_harness.Validation.report_passed dependabot_harness.Validation.check_verdict
    dependabot_harness.Ecosystem.get_adapter dependabot_harness.Ecosystem.confidence_ceiling
    dependabot_harness.Ecosystem.get dependabot_harness.Ecosystem.resolve_alias
    dependabot_harness.Version.Parse.lower dependabot_harness.Prelude.Tables.find
    dependabot_harness.Database.at_stage stage_payload dependabot_harness.Database.stage_row
    dependabot_harness.Database.new_row dependabot_harness.Database.of_verdict
    dependabot_harness.Stages.Emit.marks_dismissal
reviewed_call = here refl

emit_repo-Confirmed_example :
    IsLicensed open_gate "org/app" reviewed.db (dismiss_call "org/app" go_alert validated_row)
    × Confirmed any_schema reviewed cleared_doc
unfolding verdict_row
emit_repo-Confirmed_example =
    emit_repo-Confirmed any_schema begun reviewed open_gate accepting "r1" "org/app" 9
      (dismiss_call "org/app" go_alert validated_row) (λ row m. elim m [ ]) reaches_review refl
      reviewed_call
