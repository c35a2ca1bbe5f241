-- ===== src/Emit/Openvex/Published.antt =====
-- What GitHub is asked to close, the VEX document states.
use dependabot_harness.Prelude.{
  ℕ, ◌≡◌, refl, sym, ap, ◌∙◌, true, false, String, Option, none, some, List, [], ◌∷◌, In, here,
  there, or_default, ◌==◌, string_eq, if◌then◌else◌, arith,
}
use dependabot_harness.Alert.{AlertRecord}
use dependabot_harness.Verdict.{VerdictName, VexStatus, VerdictDoc, verdict_of, is_given}
use dependabot_harness.Database.{Database, VerdictRow, alerts_for_repo, latest_verdict}
use dependabot_harness.Emit.Dismissal.{DismissalGate}
use dependabot_harness.Stages.Emit.{DismissCall, Github, dismiss_call, verdict_rows, emit_repo}
use dependabot_harness.Stages.Emit.Dismissals.{emit_repo-IsLicensed}
use dependabot_harness.Emit.Openvex.{
  Statement, statement, statement_from_verdict, append_statement, statements_of, with_advisory,
  names, vulnerability_of, get_key, set_default,
}

verdict_rows-In :
    (db : Database) (alerts : List AlertRecord) (a : AlertRecord) (v : VerdictRow)
    → In a alerts
    → latest_verdict db a.alert_key ≡ some v
    → In (a, some v) (verdict_rows db alerts)
verdict_rows-In db [] a v m latest = elim m [ ]
verdict_rows-In db (x ∷ xs) a v (here same) latest = here (
    ap (λ (o : Option VerdictRow). (a, o)) (sym latest)
    ∙ ap (λ (b : AlertRecord). (b, latest_verdict db b.alert_key)) same)
verdict_rows-In db (x ∷ xs) a v (there later) latest =
    there (verdict_rows-In db xs a v later latest)

In-append_statement :
    (s : Statement) (o : Option Statement) (statements : List Statement)
    → In s statements
    → In s (append_statement o statements)
unfolding append_statement
In-append_statement s none statements m = m
In-append_statement s (some t) statements m = there m

In-made :
    (s : Statement) (o : Option Statement) (statements : List Statement)
    → o ≡ some s
    → In s (append_statement o statements)
unfolding append_statement
In-made s none statements h = cc
In-made s (some t) statements h = here (sym (ap (λ o. or_default o t) h))

abbrev row_statement : AlertRecord × Option VerdictRow → Option Statement
row_statement (a, none) = none
row_statement (a, some v) = statement_from_verdict (with_advisory a v.verdict) a.purl

statements_of-In :
    (rows : List (AlertRecord × Option VerdictRow)) (a : AlertRecord) (v : VerdictRow)
    (s : Statement)
    → In (a, some v) rows
    → statement_from_verdict (with_advisory a v.verdict) a.purl ≡ some s
    → In s (statements_of rows)
unfolding statements_of
statements_of-In [] a v s m made = elim m [ ]
statements_of-In ((b, none) ∷ rows) a v s (here same) made = cc
statements_of-In ((b, none) ∷ rows) a v s (there later) made =
    statements_of-In rows a v s later made
statements_of-In ((b, some w) ∷ rows) a v s (here same) made =
    In-made s (statement_from_verdict (with_advisory b w.verdict) b.purl) (statements_of rows)
      (ap row_statement (sym same) ∙ made)
statements_of-In ((b, some w) ∷ rows) a v s (there later) made =
    In-append_statement s _ (statements_of rows) (statements_of-In rows a v s later made)

-- The value of a key of the document where it has the key (a null is none), else the alert's.
abbrev pub own_or : Option (Option String) → Option String → String
own_or none value = or_default value ""
own_or (some own) value = or_default own ""

-- The advisory that a verdict on an alert names: its GHSA id, or its CVE where that is empty.
abbrev pub advisory_of : AlertRecord → VerdictDoc → String
advisory_of alert doc =
    let ghsa = own_or doc.ghsa_id (some alert.ghsa_id) in
    if ghsa == "" then own_or doc.cve_id alert.cve_id else ghsa

vulnerability_of-set_default :
    (ghsa cve : Option (Option String)) (alert : AlertRecord)
    → vulnerability_of
        (get_key (set_default ghsa (some alert.ghsa_id)))
        (get_key (set_default cve alert.cve_id))
      ≡ (if own_or ghsa (some alert.ghsa_id) == ""
          then own_or cve alert.cve_id
          else own_or ghsa (some alert.ghsa_id))
vulnerability_of-set_default none none alert = refl
vulnerability_of-set_default none (some c) alert = refl
vulnerability_of-set_default (some g) none alert = refl
vulnerability_of-set_default (some g) (some c) alert = refl

names-with_advisory :
    (alert : AlertRecord) (doc : VerdictDoc)
    → names (with_advisory alert doc) ≡ advisory_of alert doc
unfolding with_advisory
names-with_advisory alert doc = vulnerability_of-set_default doc.ghsa_id doc.cve_id alert

named_statement :
    (alert : AlertRecord) (doc : VerdictDoc)
    → verdict_of doc ≡ some VerdictName.not_affected
    → is_given doc.vex_justification ≡ true
    → (names (with_advisory alert doc) == "") ≡ false
    → statement_from_verdict (with_advisory alert doc) alert.purl
      ≡ some (statement (names (with_advisory alert doc)) doc alert.purl VexStatus.not_affected)
unfolding statement_from_verdict with_advisory
named_statement alert doc says given named = rw (statement_from_verdict, says, given, named) refl

statement_from_verdict-not_affected :
    (alert : AlertRecord) (doc : VerdictDoc)
    → verdict_of doc ≡ some VerdictName.not_affected
    → is_given doc.vex_justification ≡ true
    → (advisory_of alert doc == "") ≡ false
    → statement_from_verdict (with_advisory alert doc) alert.purl
      ≡ some (statement (advisory_of alert doc) doc alert.purl VexStatus.not_affected)
statement_from_verdict-not_affected alert doc says given named =
    let same = names-with_advisory alert doc in
    named_statement alert doc says given (ap (λ (t : String). t == "") same ∙ named)
    ∙ ap (λ (t : String). some (statement t doc alert.purl VexStatus.not_affected)) same

-- The alert that a call closes, and the statement on it.
pub record IsPublished (repo : String) (db : Database) (statements : List Statement)
    (call : DismissCall) : Type 0 where
  pub alert : AlertRecord
  pub stored : VerdictRow
  pub listed : In alert (alerts_for_repo db repo)
  pub latest : latest_verdict db alert.alert_key ≡ some stored
  pub same : call ≡ dismiss_call repo alert stored
  pub made :
      In
        (statement
          (advisory_of alert stored.verdict)
          stored.verdict
          alert.purl
          VexStatus.not_affected)
        statements
  pub justified : is_given stored.verdict.vex_justification ≡ true

-- Where the gate wants the verdict `not_affected` and every latest verdict of the repository's alerts
-- names an advisory, by keys of its own or, where it has none, by those of the alert, every dismissal
-- that GitHub is asked for is in the VEX document: the statement on the alert's package and on the
-- advisory that its latest verdict so names, with status `not_affected` and a justification that is given.
pub emit_repo-IsPublished :
    (gate : DismissalGate) (github : Github) (run repo : String) (now : ℕ) (db : Database)
    (call : DismissCall)
    → gate.requirements.verdict ≡ some (some VerdictName.not_affected)
    → ((a : AlertRecord) (v : VerdictRow)
        → In a (alerts_for_repo db repo)
        → latest_verdict db a.alert_key ≡ some v
        → (advisory_of a v.verdict == "") ≡ false)
    → In call (emit_repo gate github run repo now db).calls
    → IsPublished repo db (statements_of (verdict_rows db (alerts_for_repo db repo))) call
emit_repo-IsPublished gate github run repo now db call wanted named called =
    let l = emit_repo-IsLicensed gate github run repo now db call called in
    let says = l.cleared.verdict ∙ sym l.cleared.states_verdict ∙ wanted in
    let given = l.cleared.justified says in
    record {
      alert = l.alert;
      stored = l.stored;
      listed = l.listed;
      latest = l.latest;
      same = l.same;
      made =
          statements_of-In (verdict_rows db (alerts_for_repo db repo)) l.alert l.stored _
            (verdict_rows-In db (alerts_for_repo db repo) l.alert l.stored l.listed l.latest)
            (statement_from_verdict-not_affected l.alert l.stored.verdict (ground (arith, says))
              given (named l.alert l.stored l.listed l.latest));
      justified = given;
    }
