-- ===== src/Stages/Emit/Dismissals.antt =====
-- Which dismissals reach GitHub, and how the counters account for the alerts.
use dependabot_harness.Prelude.{
  ℕ, ◌+◌, ◌≤◌, ◌≡◌, refl, sym, ap, ◌∙◌, subst, Bool, true, false, not, String, Option, none, some,
  List, [], ◌∷◌, ◌++◌, arith, filter, length, is_some, string_eq, In, here, there, ◌⊎◌, inl, inr,
  Bool-cases,
}
use dependabot_harness.Alert.{AlertRecord}
use dependabot_harness.Database.{
  Database, VerdictRow, record_stage, alerts_for_repo, latest_verdict,
}
use dependabot_harness.Emit.Dismissal.{DismissalGate, evaluate, IsCleared}
use dependabot_harness.Emit.Dismissal.Cleared.{evaluate_iff}
use dependabot_harness.Stages.Emit.{
  EmitError, RepoEmitResult, DismissCall, Github, EmitState, already_dismissed, dismiss,
  record_blocked, record_failed, record_dismissed, maybe_dismiss, dismiss_call, dismiss_all,
  verdict_rows, account_for_the_rest, new_result, emit_repo, was_terminated, called,
}

-- The alerts that one of the counters of the second pass has counted.
abbrev pub handled : RepoEmitResult → ℕ
handled r = r.dismissed + (r.dismissal_blocked + length r.errors)

length-snoc : {A : Type 0} (xs : List A) (x : A) → length (xs ++ x ∷ []) ≡ length xs + 1
length-snoc [] x = refl
length-snoc (y ∷ ys) x = ground (arith, length-snoc ys x)

record_failed_handles :
    (run : String) (alert : AlertRecord) (now : ℕ) (e : EmitError) (s : EmitState)
    → handled (record_failed run alert now e s).result ≡ handled s.result + 1
unfolding record_failed
record_failed_handles run alert now e s = omega (arith, length-snoc s.result.errors e)

dismiss_handles :
    (github : Github) (run repo : String) (alert : AlertRecord) (stored : VerdictRow) (now : ℕ)
    (s : EmitState)
    → handled (dismiss github run repo alert stored now s).result ≡ handled s.result + 1
unfolding dismiss record_dismissed
dismiss_handles none run repo alert stored now s = record_failed_handles run alert now _ s
dismiss_handles (some client) run repo alert stored now s =
    let call = dismiss_call repo alert stored in
    elim (Bool-cases (client call)) [
      | inl accepted ↦ rw accepted omega arith
      | inr refused ↦ rw refused (record_failed_handles run alert now _ (called call s))
    ]

dismiss_undecided :
    (github : Github) (run repo : String) (alert : AlertRecord) (stored : VerdictRow) (now : ℕ)
    (s : EmitState)
    → ((dismiss github run repo alert stored now s).result.undecided ≡ s.result.undecided)
      × ((dismiss github run repo alert stored now s).result.unexplained ≡ s.result.unexplained)
unfolding dismiss record_dismissed record_failed
dismiss_undecided none run repo alert stored now s = (refl, refl)
dismiss_undecided (some client) run repo alert stored now s = ground arith

-- No dismissal touches the verdicts.
dismiss_verdicts :
    (github : Github) (run repo : String) (alert : AlertRecord) (stored : VerdictRow) (now : ℕ)
    (s : EmitState)
    → (dismiss github run repo alert stored now s).db.verdicts ≡ s.db.verdicts
unfolding dismiss record_dismissed record_failed record_stage
dismiss_verdicts none run repo alert stored now s = refl
dismiss_verdicts (some client) run repo alert stored now s = ground arith

-- The calls made for one decided alert: none, or its own, and then its gate was open.
dismiss_calls :
    (github : Github) (run repo : String) (alert : AlertRecord) (stored : VerdictRow) (now : ℕ)
    (s : EmitState)
    → ((dismiss github run repo alert stored now s).calls ≡ s.calls)
      ⊎ ((dismiss github run repo alert stored now s).calls
          ≡ s.calls ++ dismiss_call repo alert stored ∷ [])
unfolding dismiss record_dismissed record_failed
dismiss_calls none run repo alert stored now s = inl refl
dismiss_calls (some client) run repo alert stored now s =
    elim (Bool-cases (client (dismiss_call repo alert stored))) [
      | inl accepted ↦ inr (rw accepted refl)
      | inr refused ↦ inr (rw refused refl)
    ]

module _ (gate : DismissalGate) (github : Github) (run repo : String) (now : ℕ) where
  maybe_dismiss_handles :
      (alert : AlertRecord) (stored : VerdictRow) (s : EmitState)
      → handled (maybe_dismiss gate github run repo alert stored now s).result
        ≡ handled s.result + 1
  unfolding maybe_dismiss record_blocked
  maybe_dismiss_handles alert stored s =
      ground (arith, dismiss_handles github run repo alert stored now s)

  maybe_dismiss_undecided :
      (alert : AlertRecord) (stored : VerdictRow) (s : EmitState)
      → ((maybe_dismiss gate github run repo alert stored now s).result.undecided
          ≡ s.result.undecided)
        × ((maybe_dismiss gate github run repo alert stored now s).result.unexplained
            ≡ s.result.unexplained)
  unfolding maybe_dismiss record_blocked
  maybe_dismiss_undecided alert stored s =
      ground (arith, dismiss_undecided github run repo alert stored now s)

  maybe_dismiss_verdicts :
      (alert : AlertRecord) (stored : VerdictRow) (s : EmitState)
      → (maybe_dismiss gate github run repo alert stored now s).db.verdicts ≡ s.db.verdicts
  unfolding maybe_dismiss record_blocked record_stage
  maybe_dismiss_verdicts alert stored s =
      ground (arith, dismiss_verdicts github run repo alert stored now s)

  maybe_dismiss_calls :
      (alert : AlertRecord) (stored : VerdictRow) (s : EmitState)
      → ((maybe_dismiss gate github run repo alert stored now s).calls ≡ s.calls)
        ⊎ ((already_dismissed s.db alert.alert_key ≡ false)
            × ((evaluate gate stored.verdict stored.validated).allowed ≡ true)
            × ((maybe_dismiss gate github run repo alert stored now s).calls
                ≡ s.calls ++ dismiss_call repo alert stored ∷ []))
  unfolding maybe_dismiss record_blocked
  maybe_dismiss_calls alert stored s =
      ground (arith, dismiss_calls github run repo alert stored now s)

  dismiss_all_handles :
      (rows : List (AlertRecord × Option VerdictRow)) (s : EmitState)
      → handled (dismiss_all gate github run repo rows now s).result
          + length (filter (λ (a, v). not (is_some v)) rows)
        ≡ handled s.result + length rows
  unfolding dismiss_all
  dismiss_all_handles [] s = refl
  dismiss_all_handles ((a, none) ∷ rows) s = omega (arith, dismiss_all_handles rows s)
  dismiss_all_handles ((a, some stored) ∷ rows) s =
      let next = maybe_dismiss gate github run repo a stored now s in
      omega (arith, dismiss_all_handles rows next, maybe_dismiss_handles a stored s)

  -- What every dismissal of the list keeps, the list keeps.
  pub dismiss_all-keeps :
      (P : EmitState → Type 0) (rows : List (AlertRecord × Option VerdictRow))
      → ((a : AlertRecord) (v : VerdictRow) (s : EmitState)
          → In (a, some v) rows
          → P s
          → P (maybe_dismiss gate github run repo a v now s))
      → (s : EmitState) → P s
      → P (dismiss_all gate github run repo rows now s)
  unfolding dismiss_all
  dismiss_all-keeps P [] step s holds = holds
  dismiss_all-keeps P ((a, none) ∷ rows) step s holds =
      dismiss_all-keeps P rows (λ b v t m. step b v t (there m)) s holds
  dismiss_all-keeps P ((a, some stored) ∷ rows) step s holds =
      dismiss_all-keeps P rows (λ b v t m. step b v t (there m)) _
        (step a stored s (here refl) holds)

length-verdict_rows :
    (db : Database) (alerts : List AlertRecord) → length (verdict_rows db alerts) ≡ length alerts
length-verdict_rows db [] = refl
length-verdict_rows db (a ∷ rest) = omega (arith, length-verdict_rows db rest)

unexplained_le :
    (p q : AlertRecord × Option VerdictRow → Bool) (rows : List (AlertRecord × Option VerdictRow))
    → length (filter q (filter p rows)) ≤ length (filter p rows)
unexplained_le p q [] = omega arith
unexplained_le p q (r ∷ rows) = ground (arith, unexplained_le p q rows)

-- The emit stage accounts for every alert of the repository: each one is dismissed, blocked, an
-- error or undecided, one of the four, and the unexplained ones are among the undecided.
pub emit_repo_accounts :
    (gate : DismissalGate) (github : Github) (run repo : String) (now : ℕ) (db : Database)
    → let result = (emit_repo gate github run repo now db).result in
      (result.dismissed + (result.dismissal_blocked + length result.errors) + result.undecided
        ≡ length (alerts_for_repo db repo))
      × (result.unexplained ≤ result.undecided)
unfolding emit_repo account_for_the_rest
emit_repo_accounts gate github run repo now db =
    let rows = verdict_rows db (alerts_for_repo db repo) in
    let first : RepoEmitResult = account_for_the_rest db run rows new_result in
    let start : EmitState = record { db = db; result = first; calls = [] } in
    let (same, explained) =
      dismiss_all-keeps gate github run repo now
        (λ s. (s.result.undecided ≡ first.undecided) × (s.result.unexplained ≡ first.unexplained))
        rows
        (λ a v s m (p, q).
          let (p₁, q₁) = maybe_dismiss_undecided gate github run repo now a v s in (p₁ ∙ p, q₁ ∙ q))
        start (refl, refl) in
    (
      omega (
        arith,
        same,
        dismiss_all_handles gate github run repo now rows start,
        length-verdict_rows db (alerts_for_repo db repo),
      ),
      omega (
        arith,
        same,
        explained,
        unexplained_le (λ (a, v). not (is_some v)) (λ (a, v). was_terminated db run a.alert_key)
            rows,
      ),
    )

pub emit_repo_verdicts :
    (gate : DismissalGate) (github : Github) (run repo : String) (now : ℕ) (db : Database)
    → (emit_repo gate github run repo now db).db.verdicts ≡ db.verdicts
unfolding emit_repo
emit_repo_verdicts gate github run repo now db =
    let rows = verdict_rows db (alerts_for_repo db repo) in
    dismiss_all-keeps gate github run repo now (λ s. s.db.verdicts ≡ db.verdicts) rows
      (λ a v s m same. maybe_dismiss_verdicts gate github run repo now a v s ∙ same)
      (record { db = db; result = account_for_the_rest db run rows new_result; calls = [] }) refl

-- Why a call of GitHub was right to make.
pub record IsLicensed (gate : DismissalGate) (repo : String) (db : Database) (call : DismissCall)
    : Type 0 where
  pub alert : AlertRecord
  pub stored : VerdictRow
  pub listed : In alert (alerts_for_repo db repo)
  pub latest : latest_verdict db alert.alert_key ≡ some stored
  pub cleared : IsCleared gate stored.verdict stored.validated
  pub same : call ≡ dismiss_call repo alert stored

In-append : {A : Type 0} (c : A) (xs ys : List A) → In c (xs ++ ys) → In c xs ⊎ In c ys
In-append c [] ys m = inr m
In-append c (x ∷ xs) ys (here e) = inl (here e)
In-append c (x ∷ xs) ys (there m) = elim (In-append c xs ys m) [
  | inl l ↦ inl (there l)
  | inr r ↦ inr r
]

In-single : {A : Type 0} (c x : A) → In c (x ∷ []) → c ≡ x
In-single c x (here e) = e
In-single c x (there m) = elim m [ ]

In-verdict_rows :
    (db : Database) (alerts : List AlertRecord) (a : AlertRecord) (v : VerdictRow)
    → In (a, some v) (verdict_rows db alerts)
    → In a alerts × (latest_verdict db a.alert_key ≡ some v)
In-verdict_rows db [] a v m = elim m [ ]
In-verdict_rows db (b ∷ rest) a v (here e) =
    (here (ap (λ p. p.0) e), ap (λ p. latest_verdict db p.0.alert_key) e ∙ sym (ap (λ p. p.1) e))
In-verdict_rows db (b ∷ rest) a v (there m) =
    let (listed, latest) = In-verdict_rows db rest a v m in (there listed, latest)

-- Every call that the emit stage makes to GitHub is for an alert of the repository whose latest
-- verdict meets each clause of the dismissal gate.
pub emit_repo-IsLicensed :
    (gate : DismissalGate) (github : Github) (run repo : String) (now : ℕ) (db : Database)
    (call : DismissCall)
    → In call (emit_repo gate github run repo now db).calls
    → IsLicensed gate repo db call
unfolding emit_repo
emit_repo-IsLicensed gate github run repo now db =
    let rows = verdict_rows db (alerts_for_repo db repo) in
    let start : EmitState = record {
      db = db;
      result = account_for_the_rest db run rows new_result;
      calls = [];
    } in
    dismiss_all-keeps gate github run repo now
      (λ s. (call : DismissCall) → In call s.calls → IsLicensed gate repo db call) rows
      (λ a v s m holds call made.
        let (listed, latest) = In-verdict_rows db (alerts_for_repo db repo) a v m in
        elim (maybe_dismiss_calls gate github run repo now a v s) [
          | inl same ↦ holds call (subst (In call) same made)
          | inr (fresh, allowed, grown) ↦
              elim (In-append call s.calls _ (subst (In call) grown made)) [
                | inl earlier ↦ holds call earlier
                | inr own ↦ record {
                  alert = a;
                  stored = v;
                  listed = listed;
                  latest = latest;
                  cleared = (evaluate_iff gate v.verdict v.validated).0 allowed;
                  same = In-single call _ own;
                }
              ]
        ])
      start (λ call made. elim made [ ])
