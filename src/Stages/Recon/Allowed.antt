-- ===== src/Stages/Recon/Allowed.antt =====
-- What a pass may spend, and what it is charged for.
use dependabot_harness.Prelude.{
  ℕ, zero, suc, ◌+◌, ◌-◌, ◌≡◌, refl, sym, ap, ◌∙◌, ◌⊎◌, inl, inr, true, false, String, none, List,
  [], ◌∷◌, ◌++◌, Text, arith, Bool-cases, Option-cases, Result, ok, err, Result-cases, string_eq,
  beq_refl,
}
use mathlib.Core.List.{append-nil}
use dependabot_harness.Prelude.Sums.{sum_where, sum_where-append}
use dependabot_harness.Database.{Database, SnapshotRow, LedgerRow}
use dependabot_harness.Database.Snapshots.{get_architecture, put_architecture}
use dependabot_harness.Database.Runs.{add_wish}
use dependabot_harness.Models.Budget.{CapScope, check}
use dependabot_harness.Models.Budget.Caps.{IsWithin, check_iff}
use dependabot_harness.Models.Errors.{Python}
use dependabot_harness.Models.Client.{
  ModelConfig, Answer, answered, model_error, threw, Completion, context_ceiling_exceeded, ended,
}
use dependabot_harness.Models.Client.Ledgered.{rows, row_of}
use dependabot_harness.Util.Retry.{value, reraised, exhausted}
use dependabot_harness.Stages.Recon.{
  ReconStage, RepoReconResult, last_snapshot, is_fresh, of_stage, recon_spend, wish_gaps, completed,
  store_answer, call_site, call, after_call, generate, recon_snapshot, run_repo, result_of, failing,
  no_snapshot, deferred, checkout_unavailable, wish_build_env,
}
use dependabot_harness.Stages.Recon.Calls.{call_rows, call_keeps}

abbrev pub total : List LedgerRow → ℕ
total found = sum_where (λ row. true) (λ row. row.cost_usd) found

row_of-total :
    (py : Python) (cfg : ModelConfig) (stage : ReconStage) (repo : String) (a : Answer)
    → sum_where
        (of_stage stage.ledger_run repo)
        (λ row. row.cost_usd)
        (row_of py cfg (call_site stage repo) a)
      ≡ total (row_of py cfg (call_site stage repo) a)
row_of-total py cfg stage repo (model_error kind) = refl
row_of-total py cfg stage repo (threw exc) = refl
row_of-total py cfg stage repo (answered r) =
    ground (arith, beq_refl stage.ledger_run, beq_refl repo)

rows-total :
    (py : Python) (cfg : ModelConfig) (stage : ReconStage) (repo : String) (answers : ℕ → Answer)
    (n k : ℕ)
    → sum_where
        (of_stage stage.ledger_run repo)
        (λ row. row.cost_usd)
        (rows py cfg (call_site stage repo) answers n k)
      ≡ total (rows py cfg (call_site stage repo) answers n k)
rows-total py cfg stage repo answers n zero = refl
rows-total py cfg stage repo answers n (suc k) =
    let here_rows = row_of py cfg (call_site stage repo) (answers n) in
    let later = rows py cfg (call_site stage repo) answers (n + 1) k in
    omega (
      arith,
      row_of-total py cfg stage repo (answers n),
      rows-total py cfg stage repo answers (n + 1) k,
      sum_where-append (of_stage stage.ledger_run repo) (λ row. row.cost_usd) here_rows later,
      sum_where-append (λ row. true) (λ row. row.cost_usd) here_rows later,
    )

-- The tables that a pass leaves alone.
abbrev pub LeavesAlone : Database → Database → Type 0
LeavesAlone db after =
    (after.alerts ≡ db.alerts)
    × (after.verdicts ≡ db.verdicts)
    × (after.stage_results ≡ db.stage_results)
    × (after.clusters ≡ db.clusters)

-- What the steps after a call do to the database of the call.
abbrev IsPaid : ReconStage → String → ℕ → Database → RepoReconResult × Database → Type 0
IsPaid stage repo before db (r, after) =
    (after.ledger ≡ db.ledger)
    × LeavesAlone db after
    × (r.generated ≡ true → r.cost_usd ≡ recon_spend stage.ledger_run repo db - before)

wish_gaps_alone :
    (run repo : String) (now : ℕ) (gaps : List String) (db : Database)
    → ((wish_gaps run repo now gaps db).ledger ≡ db.ledger)
      × LeavesAlone db (wish_gaps run repo now gaps db)
unfolding wish_gaps add_wish
wish_gaps_alone run repo now [] db = (refl, (refl, refl, refl, refl))
wish_gaps_alone run repo now (gap ∷ gaps) db =
    wish_gaps_alone run repo now gaps (add_wish run repo gap "context_source" none now db)

store_answer-IsPaid :
    (stage : ReconStage) (run repo : String) (snapshot : SnapshotRow) (now before : ℕ) (text : Text)
    (db : Database)
    → IsPaid stage repo before db (store_answer stage run repo snapshot now before text db)
unfolding store_answer put_architecture
store_answer-IsPaid stage run repo snapshot now before text db =
    elim (Option-cases (stage.parse text)) [
      | inl unread ↦
          rw (store_answer, unread)
            (refl, (refl, refl, refl, refl), λ h. absurd (ground (arith, h)))
      | inr (doc, read) ↦
          let content = completed repo snapshot.commit_sha doc in
          elim (Bool-cases (stage.valid content)) [
            | inr bad ↦
                rw (store_answer, read, bad)
                  (refl, (refl, refl, refl, refl), λ h. absurd (ground (arith, h)))
            | inl good ↦
                let cost = recon_spend stage.ledger_run repo db - before in
                let stored =
                  put_architecture repo snapshot.commit_sha snapshot.structure_hash content cost now
                    db in
                let (same, alone) = wish_gaps_alone run repo now content.gaps stored in
                rw (store_answer, read, good) (same, alone, λ h. refl)
          ]
    ]

after_call-IsPaid :
    (stage : ReconStage) (run repo : String) (snapshot : SnapshotRow) (now before : ℕ)
    (c : Completion × Database)
    → IsPaid stage repo before c.1 (after_call stage run repo snapshot now before c)
unfolding after_call add_wish
after_call-IsPaid stage run repo snapshot now before (context_ceiling_exceeded estimated, after) =
    (refl, (refl, refl, refl, refl), λ h. absurd (ground (arith, h)))
after_call-IsPaid stage run repo snapshot now before (ended (value calls response), after) =
    store_answer-IsPaid stage run repo snapshot now before response.text after
after_call-IsPaid stage run repo snapshot now before (ended (reraised calls kind), after) =
    (refl, (refl, refl, refl, refl), λ h. absurd (ground (arith, h)))
after_call-IsPaid stage run repo snapshot now before (ended (exhausted calls), after) =
    (refl, (refl, refl, refl, refl), λ h. absurd (ground (arith, h)))

-- How a pass ends, where it does not raise.
abbrev pub IsCharged :
    ReconStage → String → Database → Result CapScope (RepoReconResult × Database) → Type 0
IsCharged stage repo db (err scope) = Unit
IsCharged stage repo db (ok (r, after)) =
    LeavesAlone db after
    × (found : List LedgerRow) × (after.ledger ≡ db.ledger ++ found)
    × ((found ≡ []) ⊎ IsWithin stage.budget db stage.ledger_run repo none)
    × (r.generated ≡ true → r.cost_usd ≡ total found)

generate-IsCharged :
    (stage : ReconStage) (run repo : String) (snapshot : SnapshotRow) (now : ℕ) (inventory : Text)
    (db : Database)
    → IsWithin stage.budget db stage.ledger_run repo none
    → IsCharged stage repo db (ok (generate stage run repo snapshot now inventory db))
unfolding generate recon_spend
generate-IsCharged stage run repo snapshot now inventory db within =
    let (k, same) = call_keeps stage repo inventory db in
    let found = call_rows stage repo inventory k in
    let before = recon_spend stage.ledger_run repo db in
    let c = call stage repo inventory db in
    let (ledger, (a, v, s, cl), paid) = after_call-IsPaid stage run repo snapshot now before c in
    let spent : recon_spend stage.ledger_run repo c.1 - before ≡ total found =
      ap (λ (d : Database). recon_spend stage.ledger_run repo d - before) same
      ∙ omega (
        arith,
        sum_where-append (of_stage stage.ledger_run repo) (λ row. row.cost_usd) db.ledger found,
        rows-total stage.python stage.model stage repo _ 0 k,
      ) in
    (
      (
        a ∙ ap (λ (d : Database). d.alerts) same,
        v ∙ ap (λ (d : Database). d.verdicts) same,
        s ∙ ap (λ (d : Database). d.stage_results) same,
        cl ∙ ap (λ (d : Database). d.clusters) same,
      ),
      found,
      ledger ∙ ap (λ (d : Database). d.ledger) same,
      inr within,
      λ h. paid h ∙ spent,
    )

-- A pass that calls no model.
free :
    (stage : ReconStage) (repo : String) (db after : Database) (r : RepoReconResult)
    → after.ledger ≡ db.ledger
    → LeavesAlone db after
    → r.generated ≡ false
    → IsCharged stage repo db (ok (r, after))
free stage repo db after r same alone none_made = (
  alone,
  [],
  same ∙ sym (append-nil db.ledger),
  inl refl,
  λ h. absurd (ground (arith, h, none_made)),
)

recon_snapshot-IsCharged :
    (stage : ReconStage) (run repo : String) (snapshot : SnapshotRow) (now : ℕ) (db : Database)
    → IsCharged stage repo db (recon_snapshot stage run repo snapshot now db)
unfolding recon_snapshot add_wish
recon_snapshot-IsCharged stage run repo snapshot now db =
    let cached =
      is_fresh stage.architecture_ttl_days now (get_architecture db repo snapshot.structure_hash) in
    elim (Bool-cases cached) [
      | inl fresh ↦
          rw (recon_snapshot, fresh)
            (free stage repo db db
              (record (result_of repo snapshot.structure_hash) { cached = true }) refl
              (refl, refl, refl, refl) refl)
      | inr stale ↦ elim (Result-cases (check stage.budget db stage.ledger_run repo none)) [
        | inr (scope, raises) ↦ rw (recon_snapshot, stale, raises) tt
        | inl (decision, decided) ↦ elim (Bool-cases decision.allowed) [
          | inr refused ↦
              rw (recon_snapshot, stale, decided, refused)
                (free stage repo db db
                  (failing repo snapshot.structure_hash (deferred decision.scope)) refl
                  (refl, refl, refl, refl) refl)
          | inl allowed ↦ elim (Result-cases (stage.inventory repo snapshot.commit_sha)) [
            | inr (e, raises) ↦
                rw (recon_snapshot, stale, decided, allowed, raises)
                  (free stage repo db (wish_build_env run repo now db)
                    (failing repo snapshot.structure_hash (checkout_unavailable e)) refl
                    (refl, refl, refl, refl) refl)
            | inl (inventory, built) ↦
                rw (recon_snapshot, stale, decided, allowed, built)
                  (generate-IsCharged stage run repo snapshot now inventory db (
                    (check_iff stage.budget db stage.ledger_run repo none).0
                      (decision, decided, allowed)))
          ]
        ]
      ]
    ]

-- A pass that does not raise leaves alerts, stage results, verdicts and clusters alone. It adds rows to
-- the ledger only where each cap of the budget was above what was spent, and the cost of an
-- architecture that it generates is that of the rows, those of failed attempts included.
pub run_repo-IsCharged :
    (stage : ReconStage) (run repo : String) (now : ℕ) (db : Database)
    → IsCharged stage repo db (run_repo stage run repo now db)
unfolding run_repo
run_repo-IsCharged stage run repo now db = elim (Option-cases (last_snapshot db repo)) [
  | inl absent ↦
      rw (run_repo, absent)
        (free stage repo db db (failing repo "" no_snapshot) refl (refl, refl, refl, refl) refl)
  | inr (snapshot, found) ↦
      rw (run_repo, found) (recon_snapshot-IsCharged stage run repo snapshot now db)
]
