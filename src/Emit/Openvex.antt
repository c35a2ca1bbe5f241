-- ===== src/Emit/Openvex.antt =====
-- harness/emit/openvex.py: the statement on one verdict, and those that `run_repo` of
-- harness/stages/emit.py puts in the document. A verdict may name its own
-- advisory; where it does not, it is given the alert's. The texts of the document around the statements are left out.
pub mod Published
use dependabot_harness.Prelude.{
  Bool, true, false, not, ◌&&◌, String, Option, none, some, List, [], ◌∷◌, Text, or_default, ◌==◌,
  string_eq, if◌then◌else◌,
}
use dependabot_harness.Alert.{AlertRecord}
use dependabot_harness.Verdict.{
  VerdictName, could_not_determine, VexStatus, under_investigation, Justification, VerdictDoc,
  verdict_of, is_given,
}
use dependabot_harness.Database.{VerdictRow}

pub record Statement : Type 0 where
  pub vulnerability : String
  pub products : List Text
  pub status : VexStatus
  pub justification : Option Justification
  pub impact_statement : Option Text
  pub action_statement : Option Text

-- `_STATUS_FROM_VERDICT.get(name)`
abbrev pub status_from_verdict : Option VerdictName → Option VexStatus
status_from_verdict (some VerdictName.not_affected) = some VexStatus.not_affected
status_from_verdict (some VerdictName.affected) = some VexStatus.affected
status_from_verdict (some VerdictName.fixed) = some VexStatus.fixed
status_from_verdict (some could_not_determine) = some under_investigation
status_from_verdict (some (VerdictName.other s)) = none
status_from_verdict none = none

abbrev pub is_not_affected : VexStatus → Bool
is_not_affected VexStatus.not_affected = true
is_not_affected _ = false

abbrev is_affected : VexStatus → Bool
is_affected VexStatus.affected = true
is_affected _ = false

-- `verdict.get("ghsa_id") or verdict.get("cve_id") or ""`
abbrev pub vulnerability_of : Option String → Option String → String
vulnerability_of ghsa_id cve_id =
    let ghsa = or_default ghsa_id "" in if ghsa == "" then or_default cve_id "" else ghsa

abbrev pub statement : String → VerdictDoc → Text → VexStatus → Statement
statement vulnerability doc purl status = record {
  vulnerability = vulnerability;
  products = purl ∷ [];
  status = status;
  justification = if is_not_affected status then doc.vex_justification else none;
  impact_statement = if is_not_affected status then doc.severity_rationale else none;
  action_statement = if is_affected status then doc.recommended_action else none;
}

-- `get` of a key.
abbrev pub get_key : Option (Option String) → Option String
get_key key = or_default key none

-- `setdefault`: a key that is there stays, also where it holds a null.
abbrev pub set_default : Option (Option String) → Option String → Option (Option String)
set_default none value = some value
set_default (some old) value = some old

-- The verdict with the advisory of the alert where it names none.
unfoldable pub with_advisory : AlertRecord → VerdictDoc → VerdictDoc
with_advisory alert doc = record doc {
  ghsa_id = set_default doc.ghsa_id (some alert.ghsa_id);
  cve_id = set_default doc.cve_id alert.cve_id;
}

-- The name that a statement has for its vulnerability.
abbrev pub names : VerdictDoc → String
names doc = vulnerability_of (get_key doc.ghsa_id) (get_key doc.cve_id)

-- `statement_from_verdict`
unfoldable pub statement_from_verdict : VerdictDoc → Text → Option Statement
statement_from_verdict doc purl = elim (status_from_verdict (verdict_of doc)) [
  | none ↦ none
  | some status ↦
      if is_not_affected status && not (is_given doc.vex_justification)
      then none
      else if names doc == ""
      then none
      else some (statement (names doc) doc purl status)
]

unfoldable pub append_statement : Option Statement → List Statement → List Statement
append_statement none statements = statements
append_statement (some s) statements = s ∷ statements

-- `statements` of `run_repo`
unfoldable pub statements_of : List (AlertRecord × Option VerdictRow) → List Statement
unfolding with_advisory
statements_of [] = []
statements_of ((alert, none) ∷ rows) = statements_of rows
statements_of ((alert, some stored) ∷ rows) =
    append_statement (statement_from_verdict (with_advisory alert stored.verdict) alert.purl)
      (statements_of rows)
