-- ===== src/Stages/Emit.antt =====
-- harness/stages/emit.py: the gated dismissal of each decided alert, and the account of the rest.
-- The files that `run_repo` writes are left out; Emit.Openvex has the statements of one of them.
pub mod Dismissals
pub mod Repeats
use dependabot_harness.Prelude.{
  ℕ, ◌+◌, Bool, true, false, not, ◌&&◌, String, Option, none, some, List, [], ◌∷◌, ◌++◌, any,
  filter, length, is_some, ◌==◌, string_eq, if◌then◌else◌,
}
use dependabot_harness.Alert.{AlertRecord}
use dependabot_harness.Verdict.{VerdictDoc}
use dependabot_harness.Database.{
  Database, StageRow, StageWrite, VerdictRow, Stage, Status, emit, policy, done, failed, Payload,
  rule_outcome, dismissed, not_dismissed, stage_beq, stage_write, record_stage, alerts_for_repo,
  latest_verdict,
}
use dependabot_harness.Emit.Dismissal.{DismissalGate, evaluate}

pub data EmitError : Type 0 where
  no_client : EmitError
  dismissal_failed : String → EmitError

-- The counters of `RepoEmitResult`.
pub record RepoEmitResult : Type 0 where
  pub dismissed : ℕ
  pub dismissal_blocked : ℕ
  pub errors : List EmitError
  pub undecided : ℕ
  pub unexplained : ℕ

-- One call of `dismiss_alert`; its comment is a function of the verdict.
pub record DismissCall : Type 0 where
  pub repo : String
  pub number : ℕ
  pub comment_on : VerdictDoc

-- `github`: the client, when there is one, answers whether the call went through (`GithubError`
-- is false).
abbrev pub Github : Type 0
Github = Option (DismissCall → Bool)

-- The database, the result, and the calls that GitHub has received.
pub record EmitState : Type 0 where
  pub db : Database
  pub result : RepoEmitResult
  pub calls : List DismissCall

abbrev is_done : Status → Bool
is_done done = true
is_done _ = false

abbrev says_dismissed : Option Payload → Bool
says_dismissed (some (dismissed j)) = true
says_dismissed _ = false

-- `WHERE alert_key=? AND stage='emit' AND status='done'`, with a payload that says so.
unfoldable pub marks_dismissal : String → StageRow → Bool
marks_dismissal key row =
    row.alert_key == key
    && (stage_beq row.stage emit && (is_done row.status && says_dismissed row.payload))

-- `_already_dismissed`
unfoldable pub already_dismissed : Database → String → Bool
already_dismissed db key = any (marks_dismissal key) db.stage_results

-- The text of the error column, without the exception's own words.
abbrev error_text : EmitError → String
error_text no_client = "no GitHub client configured; dismissal not attempted"
error_text (dismissal_failed key) = "dismissal failed"

abbrev with_error : EmitError → StageWrite
with_error error = record {
  status = failed;
  payload = none;
  error = some (error_text error);
  cost_usd = 0;
  tokens_in = 0;
  tokens_out = 0;
}

abbrev pub block : RepoEmitResult → RepoEmitResult
block r = record r { dismissal_blocked = r.dismissal_blocked + 1 }

abbrev pub dismiss_call : String → AlertRecord → VerdictRow → DismissCall
dismiss_call repo alert stored = record {
  repo = repo;
  number = alert.gh_alert_num;
  comment_on = stored.verdict;
}

record_blocked : String → AlertRecord → ℕ → EmitState → EmitState
record_blocked run alert now s = record {
  db = record_stage run alert.alert_key emit (stage_write done (some not_dismissed)) now s.db;
  result = block s.result;
  calls = s.calls;
}

record_failed : String → AlertRecord → ℕ → EmitError → EmitState → EmitState
record_failed run alert now error s = record {
  db = record_stage run alert.alert_key emit (with_error error) now s.db;
  result = record s.result { errors = s.result.errors ++ error ∷ [] };
  calls = s.calls;
}

record_dismissed : String → AlertRecord → VerdictRow → ℕ → EmitState → EmitState
record_dismissed run alert stored now s = record {
  db =
      record_stage run alert.alert_key emit
        (stage_write done (some (dismissed stored.verdict.vex_justification))) now s.db;
  result = record s.result { dismissed = s.result.dismissed + 1 };
  calls = s.calls;
}

abbrev called : DismissCall → EmitState → EmitState
called call s = record s { calls = s.calls ++ call ∷ [] }

-- What follows an open gate.
dismiss : Github → String → String → AlertRecord → VerdictRow → ℕ → EmitState → EmitState
dismiss none run repo alert stored now s = record_failed run alert now no_client s
dismiss (some client) run repo alert stored now s =
    let call = dismiss_call repo alert stored in
    if client call
    then record_dismissed run alert stored now (called call s)
    else record_failed run alert now (dismissal_failed alert.alert_key) (called call s)

-- `_maybe_dismiss`
unfoldable pub maybe_dismiss :
    DismissalGate → Github → String → String → AlertRecord → VerdictRow → ℕ → EmitState → EmitState
unfolding record_blocked record_failed record_dismissed dismiss
maybe_dismiss gate github run repo alert stored now s =
    if already_dismissed s.db alert.alert_key
    then record_blocked run alert now s
    else if not (evaluate gate stored.verdict stored.validated).allowed
    then record_blocked run alert now s
    else dismiss github run repo alert stored now s

-- The alerts of a repository beside their latest verdicts.
abbrev pub verdict_rows : Database → List AlertRecord → List (AlertRecord × Option VerdictRow)
verdict_rows db [] = []
verdict_rows db (a ∷ rest) = (a, latest_verdict db a.alert_key) ∷ verdict_rows db rest

-- A policy row of the run whose payload has a `rule_id`.
abbrev has_rule : Option Payload → Bool
has_rule (some (rule_outcome o)) = not (o.rule_id == "")
has_rule _ = false

pub was_terminated : Database → String → String → Bool
was_terminated db run key =
    any
      (λ row.
        row.run_id == run
        && (stage_beq row.stage policy && (row.alert_key == key && has_rule row.payload)))
      db.stage_results

-- `_account_for_the_rest`
unfoldable pub account_for_the_rest :
    Database → String → List (AlertRecord × Option VerdictRow) → RepoEmitResult → RepoEmitResult
account_for_the_rest db run rows result =
    let undecided = filter (λ (a, v). not (is_some v)) rows in
    record result {
      undecided = length undecided;
      unexplained = length (filter (λ (a, v). was_terminated db run a.alert_key) undecided);
    }

-- The loop over `decided`.
unfoldable pub dismiss_all :
    DismissalGate
    → Github
    → String
    → String
    → List (AlertRecord × Option VerdictRow)
    → ℕ
    → EmitState
    → EmitState
dismiss_all gate github run repo [] now s = s
dismiss_all gate github run repo ((a, none) ∷ rows) now s =
    dismiss_all gate github run repo rows now s
dismiss_all gate github run repo ((a, some stored) ∷ rows) now s =
    dismiss_all gate github run repo rows now (maybe_dismiss gate github run repo a stored now s)

abbrev pub new_result : RepoEmitResult
new_result = record {
  dismissed = 0;
  dismissal_blocked = 0;
  errors = [];
  undecided = 0;
  unexplained = 0;
}

-- `run_repo`
unfoldable pub emit_repo : DismissalGate → Github → String → String → ℕ → Database → EmitState
emit_repo gate github run repo now db =
    let rows = verdict_rows db (alerts_for_repo db repo) in
    dismiss_all gate github run repo rows now
      (record { db = db; result = account_for_the_rest db run rows new_result; calls = [] })
