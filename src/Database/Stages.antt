-- ===== src/Database/Stages.antt =====
-- Stage results: what a write leaves, at its key and elsewhere.
use dependabot_harness.Prelude.{
  ℕ, ◌+◌, ◌≡◌, ◌↔◌, Bool, true, false, ◌&&◌, String, Option, none, some, arith, eq_iff, ◌==◌,
  string_eq, if◌then◌else◌, Bool-cases, inl, inr,
}
use dependabot_harness.Prelude.Tables.{find-upsert, find-upsert_ne}
use dependabot_harness.Database.{
  Database, Stage, StageRow, StageWrite, at_stage, record_stage, stage_row, stage_status,
  stage_payload, is_stage_complete, is_terminal, stage_beq, coalesce, merge_row, new_row,
}

stage_beq_iff : (a b : Stage) → (stage_beq a b ≡ true) ↔ (a ≡ b)
stage_beq_iff a b = ground arith

-- Whether two keys of the table are the same.
abbrev pub same_key : String → String → Stage → String → String → Stage → Bool
same_key run key stage run' key' stage' = run == run' && (key == key' && stage_beq stage stage')

abbrev row_attempts : Option StageRow → ℕ
row_attempts none = 0
row_attempts (some row) = row.attempts

-- The counters of a row; no row counts as zero.
pub attempts : Database → String → String → Stage → ℕ
attempts db run key stage = row_attempts (stage_row db run key stage)

abbrev row_spent : Option StageRow → ℕ
row_spent none = 0
row_spent (some row) = row.cost_usd

pub spent : Database → String → String → Stage → ℕ
spent db run key stage = row_spent (stage_row db run key stage)

module _ (run key : String) (stage : Stage) (w : StageWrite) (now : ℕ) (db : Database) where
  abbrev written : Database
  written = record_stage run key stage w now db

  stage_row-record_stage :
      stage_row written run key stage
      ≡ some (elim (stage_row db run key stage) [
        | none ↦ new_row run key stage w now
        | some row ↦ merge_row w now row
      ])
  unfolding record_stage stage_row at_stage new_row merge_row
  stage_row-record_stage =
      find-upsert (at_stage run key stage) _ _ db.stage_results
        (ground (arith, eq_iff run run, eq_iff key key, stage_beq_iff stage stage)) (λ x h. h)

  apart :
      (run' key' : String) (stage' : Stage)
      → same_key run key stage run' key' stage' ≡ false
      → (x : StageRow) → at_stage run key stage x ≡ true
      → at_stage run' key' stage' x ≡ false
  unfolding at_stage
  apart run' key' stage' differ x h =
      ground (arith, eq_iff x.run_id run, eq_iff x.alert_key key, stage_beq_iff x.stage stage)

  stage_row-record_stage_ne :
      (run' key' : String) (stage' : Stage)
      → same_key run key stage run' key' stage' ≡ false
      → stage_row written run' key' stage' ≡ stage_row db run' key' stage'
  unfolding record_stage stage_row at_stage new_row merge_row
  stage_row-record_stage_ne run' key' stage' differ =
      find-upsert_ne (at_stage run key stage) (at_stage run' key' stage') _ _ db.stage_results
        differ (λ x h. apart run' key' stage' differ x h) (λ x h. apart run' key' stage' differ x h)

  -- A write at a key leaves its status there, keeps a payload that it does not replace, and counts
  -- the attempt; what other keys show is unchanged.
  pub record_stage_lem :
      (stage_status written run key stage ≡ some w.status)
      × (stage_payload written run key stage ≡ coalesce w.payload (stage_payload db run key stage))
      × (attempts written run key stage ≡ attempts db run key stage + 1)
      × (spent written run key stage ≡ spent db run key stage + w.cost_usd)
      × ((run' key' : String) (stage' : Stage)
          → same_key run key stage run' key' stage' ≡ false
          → (stage_status written run' key' stage' ≡ stage_status db run' key' stage')
            × (stage_payload written run' key' stage' ≡ stage_payload db run' key' stage'))
  unfolding stage_status stage_payload new_row merge_row attempts spent
  record_stage_lem = (
    ground (arith, stage_row-record_stage),
    ground (arith, stage_row-record_stage),
    ground (arith, stage_row-record_stage),
    ground (arith, stage_row-record_stage),
    λ run' key' stage' differ.
        let e = stage_row-record_stage_ne run' key' stage' differ in
        (ground (arith, e), ground (arith, e)),
  )

  -- A stage is complete after a write exactly if the write's status is terminal; the completion of
  -- other stages, alerts and runs is as it was.
  pub is_stage_complete-record_stage :
      (run' key' : String) (stage' : Stage)
      → is_stage_complete written run' key' stage' ≡ (
          if same_key run key stage run' key' stage'
          then is_terminal w.status
          else is_stage_complete db run' key' stage')
  unfolding is_stage_complete
  is_stage_complete-record_stage run' key' stage' =
      elim (Bool-cases (same_key run key stage run' key' stage')) [
        | inr differ ↦ ground (arith, record_stage_lem.4 run' key' stage' differ)
        | inl same ↦ ground (
          arith,
          record_stage_lem.0,
          eq_iff run run',
          eq_iff key key',
          stage_beq_iff stage stage',
        )
      ]
