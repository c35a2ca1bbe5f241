-- ===== src/Stages/Emit/Repeats.antt =====
-- Dismissing an alert again: what `_already_dismissed` sees of the runs before.
use dependabot_harness.Prelude.{
  ℕ, ◌+◌, ◌≡◌, refl, sym, ap, ◌∙◌, Bool, true, false, ◌&&◌, String, Option, none, some, List, [],
  ◌∷◌, ◌++◌, arith, any, filter, ◌==◌, string_eq, eq_iff, beq_refl, Bool-cases, inl, inr,
}
use dependabot_harness.Prelude.Tables.{upsert}
use dependabot_harness.Alert.{AlertRecord}
use dependabot_harness.Verdict.{Justification}
use dependabot_harness.Database.{
  Database, emit, StageRow, dismissed, not_dismissed, done, VerdictRow, at_stage, stage_write,
  stage_beq, record_stage, merge_row, new_row,
}
use dependabot_harness.Emit.Dismissal.{DismissalGate, evaluate}
use dependabot_harness.Stages.Emit.{
  DismissCall, Github, EmitState, marks_dismissal, already_dismissed, dismiss, record_blocked,
  record_dismissed, record_failed, maybe_dismiss, dismiss_call, called,
}

-- The first row at a key, written again: only the last write is seen.
upsert-upsert :
    {A : Type 0} (p : A → Bool) (u v : A → A) (m n : A) (xs : List A)
    → ((x : A) → p x ≡ true → p (u x) ≡ true)
    → p m ≡ true
    → upsert p v n (upsert p u m xs) ≡ upsert p (λ x. v (u x)) (v m) xs
unfolding upsert
upsert-upsert p u v m n [] hu hm = ground arith
upsert-upsert p u v m n (x ∷ xs) hu hm = ground (arith, hu x, upsert-upsert p u v m n xs hu hm)

any-upsert-eq-false :
    {A : Type 0} (p q : A → Bool) (u : A → A) (m : A) (xs : List A)
    → any q xs ≡ false
    → q m ≡ false
    → ((x : A) → q (u x) ≡ false)
    → any q (upsert p u m xs) ≡ false
unfolding upsert
any-upsert-eq-false p q u m [] h hm hu = ground (arith, h, hm)
any-upsert-eq-false p q u m (x ∷ xs) h hm hu =
    ground (arith, h, hu x, any-upsert-eq-false p q u m xs _ hm hu)

any-upsert :
    {A : Type 0} (p q : A → Bool) (u : A → A) (m : A) (xs : List A)
    → q m ≡ true
    → ((x : A) → p x ≡ true → q (u x) ≡ true)
    → any q (upsert p u m xs) ≡ true
unfolding upsert
any-upsert p q u m [] hm hu = ground (arith, hm)
any-upsert p q u m (x ∷ xs) hm hu = ground (arith, hu x, any-upsert p q u m xs hm hu)

any-upsert_ne :
    {A : Type 0} (p q : A → Bool) (u : A → A) (m : A) (xs : List A)
    → ((x : A) → p x ≡ true → q x ≡ false)
    → any q xs ≡ true
    → any q (upsert p u m xs) ≡ true
unfolding upsert
any-upsert_ne p q u m [] apart h = ground (arith, h)
any-upsert_ne p q u m (x ∷ xs) apart h = elim (Bool-cases (p x)) [
  | inl here_p ↦ ground (arith, apart x here_p, h)
  | inr there_p ↦ ground (arith, h, any-upsert_ne p q u m xs apart)
]

-- A row of the run that says the alert was dismissed.
abbrev pub marks_in : String → String → StageRow → Bool
marks_in run key row = row.run_id == run && marks_dismissal key row

any-marks_in :
    (run key : String) (xs : List StageRow)
    → any (marks_in run key) xs ≡ true
    → any (marks_dismissal key) xs ≡ true
any-marks_in run key [] h = ground (arith, h)
any-marks_in run key (x ∷ xs) h = ground (arith, h, any-marks_in run key xs)

-- A dismissal that GitHub took is on record.
dismissal_marks :
    (run key : String) (j : Option Justification) (now : ℕ) (db : Database)
    → any
        (marks_in run key)
        (record_stage run key emit (stage_write done (some (dismissed j))) now db).stage_results
      ≡ true
unfolding record_stage at_stage merge_row new_row marks_dismissal
dismissal_marks run key j now db =
    any-upsert _ _ _ _ db.stage_results (ground (arith, beq_refl run, beq_refl key))
      (λ x h. ground (arith, h))

module _ (gate : DismissalGate) (github : Github) (repo : String) (alert : AlertRecord)
    (stored : VerdictRow) (now : ℕ) where
  -- The same alert, in one run after another.
  abbrev pub passes : List String → EmitState → EmitState
  passes [] s = s
  passes (run ∷ runs) s = passes runs (maybe_dismiss gate github run repo alert stored now s)

-- A pass over an alert: of some run, with its gate, its client, the verdict then stored and its clock.
pub record Pass : Type 0 where
  pub gate : DismissalGate
  pub github : Github
  pub run : String
  pub repo : String
  pub stored : VerdictRow
  pub now : ℕ

abbrev pub pass_over : AlertRecord → Pass → EmitState → EmitState
pass_over alert p s = maybe_dismiss p.gate p.github p.run p.repo alert p.stored p.now s

-- The rows of an alert at the emit stage of a run.
abbrev pub emit_rows : String → String → Database → List StageRow
emit_rows run key db =
    filter (λ row. row.run_id == run && (row.alert_key == key && stage_beq row.stage emit))
      db.stage_results

-- What follows a pass of a run over an alert, on the database: passes over it of other runs, and
-- whatever else leaves the alert's rows at the emit stage of that run as they are.
pub data Later (alert : AlertRecord) (run : String) (db : Database) : Database → Type 0 where
  start : Later alert run db db
  pass :
      (p : Pass) (s : EmitState)
      → Later alert run db s.db
      → (p.run == run) ≡ false
      → Later alert run db (pass_over alert p s).db
  between :
      {before : Database} (next : Database)
      → Later alert run db before
      → emit_rows run alert.alert_key next ≡ emit_rows run alert.alert_key before
      → Later alert run db next

any-filter :
    {A : Type 0} (p q : A → Bool) (xs : List A)
    → ((x : A) → q x ≡ true → p x ≡ true)
    → any q (filter p xs) ≡ any q xs
any-filter p q [] h = refl
any-filter p q (x ∷ xs) h = ground (arith, h x, any-filter p q xs h)

any-emit_rows :
    (run key : String) (db : Database)
    → any (marks_in run key) (emit_rows run key db) ≡ any (marks_in run key) db.stage_results
unfolding marks_dismissal
any-emit_rows run key db = any-filter _ _ db.stage_results (λ x h. ground (arith, h))

blocked_pass :
    (alert : AlertRecord) (run : String) (p : Pass) (s : EmitState)
    → (p.run == run) ≡ false
    → any (marks_in run alert.alert_key) s.db.stage_results ≡ true
    → ((pass_over alert p s).calls ≡ s.calls)
      × (any (marks_in run alert.alert_key) (pass_over alert p s).db.stage_results ≡ true)
unfolding maybe_dismiss record_blocked already_dismissed record_stage at_stage
blocked_pass alert run p s differ marked =
    rw (any-marks_in run alert.alert_key s.db.stage_results marked) (
      refl,
      any-upsert_ne _ _ _ _ s.db.stage_results
          (λ x h. ground (arith, eq_iff x.run_id run, eq_iff x.run_id p.run, eq_iff p.run run))
          marked,
    )

later_marks :
    {alert : AlertRecord} {run : String} {db after : Database}
    → any (marks_in run alert.alert_key) db.stage_results ≡ true
    → Later alert run db after
    → any (marks_in run alert.alert_key) after.stage_results ≡ true
later_marks marked start = marked
later_marks {alert} {run} marked (pass p s earlier differ) =
    (blocked_pass alert run p s differ (later_marks marked earlier)).1
later_marks {alert} {run} marked (between {before} next earlier same) =
    sym (any-emit_rows run alert.alert_key next)
    ∙ ap (any (marks_in run alert.alert_key)) same
    ∙ any-emit_rows run alert.alert_key before
    ∙ later_marks marked earlier

dismiss-marks :
    (github : Github) (run repo : String) (alert : AlertRecord) (stored : VerdictRow) (now : ℕ)
    (s : EmitState)
    → (dismiss github run repo alert stored now s).result.dismissed ≡ s.result.dismissed + 1
    → any
        (marks_in run alert.alert_key)
        (dismiss github run repo alert stored now s).db.stage_results
      ≡ true
unfolding dismiss record_failed record_dismissed
dismiss-marks none run repo alert stored now s h = ground (arith, h)
dismiss-marks (some client) run repo alert stored now s h =
    let marks = dismissal_marks run alert.alert_key stored.verdict.vex_justification now s.db in
    elim (Bool-cases (client (dismiss_call repo alert stored))) [
      | inl accepted ↦ rw accepted marks
      | inr refused ↦ ground (arith, h, refused)
    ]

maybe_dismiss-marks :
    (gate : DismissalGate) (github : Github) (run repo : String) (alert : AlertRecord)
    (stored : VerdictRow) (now : ℕ) (s : EmitState)
    → (maybe_dismiss gate github run repo alert stored now s).result.dismissed
      ≡ s.result.dismissed + 1
    → any
        (marks_in run alert.alert_key)
        (maybe_dismiss gate github run repo alert stored now s).db.stage_results
      ≡ true
unfolding maybe_dismiss record_blocked
maybe_dismiss-marks gate github run repo alert stored now s h =
    ground (arith, h, dismiss-marks github run repo alert stored now s)

-- After a pass of a run has dismissed an alert, a pass over it of another run makes no call of GitHub,
-- whatever its gate, its client, its clock and the verdict then stored, and whatever has been written
-- since, passes of other runs over the alert included, as long as it leaves the alert's rows at the
-- emit stage of the dismissing run as they are.
pub dismissed_once :
    (gate : DismissalGate) (github : Github) (repo : String) (alert : AlertRecord)
    (stored : VerdictRow) (now : ℕ) (run : String) (s t : EmitState) (p : Pass)
    → (maybe_dismiss gate github run repo alert stored now s).result.dismissed
      ≡ s.result.dismissed + 1
    → Later alert run (maybe_dismiss gate github run repo alert stored now s).db t.db
    → (p.run == run) ≡ false
    → (pass_over alert p t).calls ≡ t.calls
dismissed_once gate github repo alert stored now run s t p done_now later differ =
    (blocked_pass alert run p t differ
      (later_marks (maybe_dismiss-marks gate github run repo alert stored now s done_now) later)).0

-- A pass of the same run overwrites the record of the dismissal, since both are the row at the run,
-- the alert and the stage.
overwritten :
    (run : String) (alert : AlertRecord) (j : Option Justification) (now : ℕ) (db : Database)
    → already_dismissed db alert.alert_key ≡ false
    → already_dismissed
        (record_stage run alert.alert_key emit
          (stage_write done (some not_dismissed))
          now
          (record_stage run alert.alert_key emit (stage_write done (some (dismissed j))) now db))
        alert.alert_key
      ≡ false
unfolding already_dismissed record_stage at_stage merge_row new_row marks_dismissal
overwritten run alert j now db h =
    rw
      (upsert-upsert (at_stage run alert.alert_key emit)
        (merge_row (stage_write done (some (dismissed j))) now)
        (merge_row (stage_write done (some not_dismissed)) now)
        (new_row run alert.alert_key emit (stage_write done (some (dismissed j))) now)
        (new_row run alert.alert_key emit (stage_write done (some not_dismissed)) now)
        db.stage_results (λ x k. k) (ground (arith, beq_refl run, beq_refl alert.alert_key)))
      (any-upsert-eq-false _ _ _ _ db.stage_results h (ground arith) (λ x. ground arith))

first_pass :
    (gate : DismissalGate) (client : DismissCall → Bool) (run repo : String) (alert : AlertRecord)
    (stored : VerdictRow) (now : ℕ) (s : EmitState)
    → (evaluate gate stored.verdict stored.validated).allowed ≡ true
    → client (dismiss_call repo alert stored) ≡ true
    → already_dismissed s.db alert.alert_key ≡ false
    → maybe_dismiss gate (some client) run repo alert stored now s
      ≡ record_dismissed run alert stored now (called (dismiss_call repo alert stored) s)
unfolding maybe_dismiss dismiss
first_pass gate client run repo alert stored now s allowed accepts fresh =
    rw (fresh, allowed, accepts) refl

second_pass :
    (gate : DismissalGate) (github : Github) (run repo : String) (alert : AlertRecord)
    (stored : VerdictRow) (now : ℕ) (s : EmitState)
    → any (marks_in run alert.alert_key) s.db.stage_results ≡ true
    → maybe_dismiss gate github run repo alert stored now s ≡ record_blocked run alert now s
unfolding maybe_dismiss already_dismissed
second_pass gate github run repo alert stored now s marked =
    rw (any-marks_in run alert.alert_key s.db.stage_results marked) refl

-- When one run passes over an alert three times, with an open gate, a client that accepts and no
-- dismissal on record before, GitHub receives the same dismissal twice: the second pass replaces
-- the record of the first, so the third does not see it.
pub dismissed_twice :
    (gate : DismissalGate) (client : DismissCall → Bool) (run repo : String) (alert : AlertRecord)
    (stored : VerdictRow) (now : ℕ) (s : EmitState)
    → (evaluate gate stored.verdict stored.validated).allowed ≡ true
    → client (dismiss_call repo alert stored) ≡ true
    → already_dismissed s.db alert.alert_key ≡ false
    → (passes gate (some client) repo alert stored now (run ∷ run ∷ run ∷ []) s).calls
      ≡ (s.calls ++ dismiss_call repo alert stored ∷ []) ++ dismiss_call repo alert stored ∷ []
unfolding record_dismissed record_blocked
dismissed_twice gate client run repo alert stored now s allowed accepts fresh =
    let marks = dismissal_marks run alert.alert_key stored.verdict.vex_justification now s.db in
    let pass : EmitState → EmitState = maybe_dismiss gate (some client) run repo alert stored now in
    let one : EmitState =
      record_dismissed run alert stored now (called (dismiss_call repo alert stored) s) in
    let two : EmitState = record_blocked run alert now one in
    ap (λ t. (pass (pass t)).calls)
      (first_pass gate client run repo alert stored now s allowed accepts fresh)
    ∙ ap (λ t. (pass t).calls) (second_pass gate (some client) run repo alert stored now one marks)
    ∙ ap (λ t. t.calls)
        (first_pass gate client run repo alert stored now two allowed accepts
          (overwritten run alert stored.verdict.vex_justification now s.db fresh))
