-- ===== src/Stages/Recon/Cached.antt =====
-- An architecture that was generated answers the later passes.
use dependabot_harness.Prelude.{
  ℕ, ◌-◌, ◌*◌, ◌≤◌, ◌≡◌, refl, sym, ap, subst, ◌∙◌, inl, inr, true, String, Option, none, some,
  List, [], ◌∷◌, Text, arith, Bool-cases, Option-cases, Result, ok, err, Result-cases, string_eq,
  beq_refl,
}
use dependabot_harness.Prelude.Tables.{find, find-upsert}
use dependabot_harness.Database.{Database, SnapshotRow, ArchitectureRow, ArchitectureDoc}
use dependabot_harness.Database.Snapshots.{get_architecture, put_architecture, of_structure}
use dependabot_harness.Database.Runs.{add_wish}
use dependabot_harness.Models.Budget.{CapScope, check}
use dependabot_harness.Models.Client.{Completion, context_ceiling_exceeded, ended}
use dependabot_harness.Util.Retry.{value, reraised, exhausted}
use dependabot_harness.Stages.Recon.{
  ReconStage, RepoReconResult, result_of, last_snapshot, is_fresh, wish_gaps, store_answer, call,
  generate, after_call, recon_snapshot, run_repo, completed, recon_spend,
}

wish_gaps_keeps :
    (run repo : String) (now : ℕ) (gaps : List String) (db : Database)
    → (wish_gaps run repo now gaps db).architecture ≡ db.architecture
unfolding wish_gaps add_wish
wish_gaps_keeps run repo now [] db = refl
wish_gaps_keeps run repo now (gap ∷ gaps) db =
    wish_gaps_keeps run repo now gaps (add_wish run repo gap "context_source" none now db)

-- What a pass over a snapshot that generates leaves behind.
abbrev IsStored : String → SnapshotRow → ℕ → RepoReconResult × Database → Type 0
IsStored repo snapshot now (r, after) =
    r.generated ≡ true
    → (r.structure_hash ≡ snapshot.structure_hash)
      × (row : ArchitectureRow) × (get_architecture after repo snapshot.structure_hash ≡ some row)
      × (row.generated_at ≡ now)

get-put_architecture :
    (repo sha hash : String) (content : ArchitectureDoc) (cost now : ℕ) (db : Database)
    → (row : ArchitectureRow) × (get_architecture
          (put_architecture repo sha hash content cost now db)
          repo
          hash
        ≡ some row)
      × (row.generated_at ≡ now)
unfolding get_architecture put_architecture
get-put_architecture repo sha hash content cost now db =
    let row : ArchitectureRow = record {
      repo = repo;
      commit_sha = sha;
      structure_hash = hash;
      content = content;
      generated_at = now;
      cost_usd = cost;
    } in
    (
      row,
      find-upsert (of_structure repo hash) (λ old. row) row db.architecture
            (ground (arith, beq_refl repo, beq_refl hash))
            (λ x h. ground (arith, beq_refl repo, beq_refl hash))
          ∙ ap {B = Option ArchitectureRow} (λ (r : ArchitectureRow). some r)
              (either (find (of_structure repo hash) db.architecture) row),
      refl,
    )
  where
    either :
        (found : Option ArchitectureRow) (row : ArchitectureRow)
        → (elim found [ none ↦ row | some x ↦ row ]) ≡ row
    either none row = refl
    either (some x) row = refl

store_answer-IsStored :
    (stage : ReconStage) (run repo : String) (snapshot : SnapshotRow) (now before : ℕ) (text : Text)
    (db : Database)
    → IsStored repo snapshot now (store_answer stage run repo snapshot now before text db)
unfolding store_answer get_architecture
store_answer-IsStored stage run repo snapshot now before text db =
    elim (Option-cases (stage.parse text)) [
      | inl unread ↦ rw (store_answer, unread) (λ h. absurd (ground (arith, h)))
      | inr (doc, read) ↦
          let content = completed repo snapshot.commit_sha doc in
          elim (Bool-cases (stage.valid content)) [
            | inr bad ↦ rw (store_answer, read, bad) (λ h. absurd (ground (arith, h)))
            | inl good ↦
                let cost = recon_spend stage.ledger_run repo db - before in
                let stored =
                  put_architecture repo snapshot.commit_sha snapshot.structure_hash content cost now
                    db in
                let kept = wish_gaps_keeps run repo now content.gaps stored in
                let (row, found, dated) =
                  get-put_architecture repo snapshot.commit_sha snapshot.structure_hash content cost
                    now db in
                rw (store_answer, read, good)
                  (λ h. (
                    refl,
                    row,
                    ap (find (of_structure repo snapshot.structure_hash)) kept ∙ found,
                    dated,
                  ))
          ]
    ]

after_call-IsStored :
    (stage : ReconStage) (run repo : String) (snapshot : SnapshotRow) (now before : ℕ)
    (c : Completion × Database)
    → IsStored repo snapshot now (after_call stage run repo snapshot now before c)
unfolding after_call
after_call-IsStored stage run repo snapshot now before (context_ceiling_exceeded estimated, after)
      h =
    absurd (ground (arith, h))
after_call-IsStored stage run repo snapshot now before (ended (value calls response), after) h =
    store_answer-IsStored stage run repo snapshot now before response.text after h
after_call-IsStored stage run repo snapshot now before (ended (reraised calls kind), after) h =
    absurd (ground (arith, h))
after_call-IsStored stage run repo snapshot now before (ended (exhausted calls), after) h =
    absurd (ground (arith, h))

generate-IsStored :
    (stage : ReconStage) (run repo : String) (snapshot : SnapshotRow) (now : ℕ) (inventory : Text)
    (db : Database)
    → IsStored repo snapshot now (generate stage run repo snapshot now inventory db)
unfolding generate
generate-IsStored stage run repo snapshot now inventory db =
    after_call-IsStored stage run repo snapshot now (recon_spend stage.ledger_run repo db)
      (call stage repo inventory db)

-- The same of a pass that may raise.
abbrev IsKept : String → SnapshotRow → ℕ → Result CapScope (RepoReconResult × Database) → Type 0
IsKept repo snapshot now (ok p) = IsStored repo snapshot now p
IsKept repo snapshot now (err e) = Unit

recon_snapshot-IsKept :
    (stage : ReconStage) (run repo : String) (snapshot : SnapshotRow) (now : ℕ) (db : Database)
    → IsKept repo snapshot now (recon_snapshot stage run repo snapshot now db)
unfolding recon_snapshot
recon_snapshot-IsKept stage run repo snapshot now db =
    let cached =
      is_fresh stage.architecture_ttl_days now (get_architecture db repo snapshot.structure_hash) in
    elim (Bool-cases cached) [
      | inl fresh ↦ rw (recon_snapshot, fresh) (λ h. absurd (ground (arith, h)))
      | inr stale ↦ elim (Result-cases (check stage.budget db stage.ledger_run repo none)) [
        | inr (scope, threw) ↦ rw (recon_snapshot, stale, threw) tt
        | inl (decision, decided) ↦ elim (Bool-cases decision.allowed) [
          | inr refused ↦
              rw (recon_snapshot, stale, decided, refused) (λ h. absurd (ground (arith, h)))
          | inl allowed ↦ elim (Result-cases (stage.inventory repo snapshot.commit_sha)) [
            | inr (e, threw) ↦
                rw (recon_snapshot, stale, decided, allowed, threw)
                  (λ h. absurd (ground (arith, h)))
            | inl (inventory, built) ↦
                rw (recon_snapshot, stale, decided, allowed, built)
                  (generate-IsStored stage run repo snapshot now inventory db)
          ]
        ]
      ]
    ]

is_fresh-row :
    (ttl now : ℕ) (row : ArchitectureRow)
    → now - row.generated_at ≤ ttl * 86400
    → is_fresh ttl now (some row) ≡ true
unfolding is_fresh
is_fresh-row ttl now row young = ground (arith, young)

-- An architecture that a pass generates is what later passes find, whatever was written since: while
-- the newest snapshot of the repository has the same structure, the row that the pass stored for that
-- structure is the one on record, and its age is within the limit of a later pass, of any run, that
-- pass is answered from the cache and changes nothing, whatever its model, budget and checkout do.
pub run_repo-cached :
    (stage later : ReconStage) (run run' repo : String) (now now' : ℕ)
    (db after later_db : Database) (r : RepoReconResult) (snapshot : SnapshotRow)
    → run_repo stage run repo now db ≡ ok (r, after)
    → r.generated ≡ true
    → last_snapshot later_db repo ≡ some snapshot
    → snapshot.structure_hash ≡ r.structure_hash
    → get_architecture later_db repo r.structure_hash ≡ get_architecture after repo r.structure_hash
    → now' - now ≤ later.architecture_ttl_days * 86400
    → run_repo later run' repo now' later_db
      ≡ ok (record (result_of repo r.structure_hash) { cached = true }, later_db)
unfolding run_repo
run_repo-cached stage later run run' repo now now' db after later_db r snapshot ran made newest same
      kept young =
    elim (Option-cases (last_snapshot db repo)) [
      | inl absent ↦
          let ended_at = rw (run_repo, absent) at ran in absurd (ground (arith, ended_at, made))
      | inr (old, found) ↦
          let ended_at = rw (run_repo, found) at ran in
          let (hash, row, stored, dated) =
            subst (IsKept repo old now) ended_at (recon_snapshot-IsKept stage run repo old now db)
              made in
          let fresh =
            is_fresh-row later.architecture_ttl_days now' row (
              subst (λ (t : ℕ). now' - t ≤ later.architecture_ttl_days * 86400) (sym dated)
                young) in
          let on_record : get_architecture later_db repo snapshot.structure_hash ≡ some row =
            ap (get_architecture later_db repo) same
            ∙ kept
            ∙ ap (get_architecture after repo) hash
            ∙ stored in
          rw (run_repo, newest, sym same) (served row on_record fresh)
    ]
  where
    served :
        (row : ArchitectureRow)
        → get_architecture later_db repo snapshot.structure_hash ≡ some row
        → is_fresh later.architecture_ttl_days now' (some row) ≡ true
        → recon_snapshot later run' repo snapshot now' later_db
          ≡ ok (record (result_of repo snapshot.structure_hash) { cached = true }, later_db)
    served row stored fresh = rw (recon_snapshot, stored, fresh) refl
