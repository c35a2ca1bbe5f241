-- ===== src/Stages/Evidence/Requeue.antt =====
-- A requeue of the evidence stage: the alerts are open again, and nothing measured is lost.
use dependabot_harness.Prelude.{
  eq_iff, ℕ, ◌≡◌, refl, sym, subst, ◌∙◌, ◌⊎◌, inl, inr, String, some, List, [], ◌∷◌, arith, In,
  here, there, Bool-cases,
}
use dependabot_harness.Alert.{AlertRecord}
use dependabot_harness.Database.{
  Database, done, failed, evidence, StageWrite, record_stage, stage_status, stage_payload,
}
use dependabot_harness.Database.Stages.{record_stage_lem, same_key}
use dependabot_harness.Stages.Evidence.{shallow_error, failed_with, requeue}

-- What a write of the stage does to the row of another alert, or of the same.
pub write_cases :
    (run key other : String) (w : StageWrite) (now : ℕ) (db : Database)
    → let after = record_stage run key evidence w now db in
      (stage_status after run other evidence ≡ some w.status)
      ⊎ (stage_status after run other evidence ≡ stage_status db run other evidence)
write_cases run key other w now db =
    let (status, payload, tries, spends, others) = record_stage_lem run key evidence w now db in
    elim (Bool-cases (same_key run key evidence run other evidence)) [
      | inl same ↦
          let e : key ≡ other = ground (arith, same, eq_iff key other) in
          inl (
            subst
              (λ (k : String).
                stage_status (record_stage run key evidence w now db) run k evidence
                ≡ some w.status)
              e status)
      | inr apart ↦ inr (others run other evidence apart).0
    ]

-- A requeue loses no payload.
keeps_payload :
    (run key other error : String) (now : ℕ) (db : Database)
    → stage_payload (record_stage run key evidence (failed_with error) now db) run other evidence
      ≡ stage_payload db run other evidence
keeps_payload run key other error now db =
    let (status, payload, tries, spends, others) =
      record_stage_lem run key evidence (failed_with error) now db in
    elim (Bool-cases (same_key run key evidence run other evidence)) [
      | inl same ↦
          let e : key ≡ other = ground (arith, same, eq_iff key other) in
          subst
            (λ (k : String).
              stage_payload (record_stage run key evidence (failed_with error) now db) run k
                evidence
              ≡ stage_payload db run k evidence)
            e payload
      | inr apart ↦ (others run other evidence apart).1
    ]

abbrev pub IsFailed : String → String → Database → Type 0
IsFailed run key db = stage_status db run key evidence ≡ some failed

-- Done or failed.
abbrev pub IsSettled : String → String → Database → Type 0
IsSettled run key db = (stage_status db run key evidence ≡ some done) ⊎ IsFailed run key db

requeue-stays :
    (run : String) (now : ℕ) (alerts : List AlertRecord) (db : Database) (key : String)
    → IsFailed run key db
    → IsFailed run key (requeue run now alerts db)
unfolding requeue
requeue-stays run now [] db key h = h
requeue-stays run now (a ∷ alerts) db key h =
    requeue-stays run now alerts _ key
      (elim (write_cases run a.alert_key key (failed_with shallow_error) now db) [
        | inl e ↦ e
        | inr e ↦ e ∙ h
      ])

pub requeue-IsFailed :
    (run : String) (now : ℕ) (alerts : List AlertRecord) (db : Database) (alert : AlertRecord)
    → In alert alerts
    → IsFailed run alert.alert_key (requeue run now alerts db)
unfolding requeue
requeue-IsFailed run now [] db alert listed = elim listed [ ]
requeue-IsFailed run now (a ∷ alerts) db alert (there later) =
    requeue-IsFailed run now alerts _ alert later
requeue-IsFailed run now (a ∷ alerts) db alert (here same) =
    requeue-stays run now alerts _ alert.alert_key (
      subst
        (λ (x : AlertRecord).
          IsFailed run x.alert_key
            (record_stage run a.alert_key evidence (failed_with shallow_error) now db))
        (sym same) (record_stage_lem run a.alert_key evidence (failed_with shallow_error) now db).0)

-- A requeue discards nothing that was measured.
pub requeue-payload :
    (run : String) (now : ℕ) (alerts : List AlertRecord) (db : Database) (key : String)
    → stage_payload (requeue run now alerts db) run key evidence ≡ stage_payload db run key evidence
unfolding requeue
requeue-payload run now [] db key = refl
requeue-payload run now (a ∷ alerts) db key =
    requeue-payload run now alerts _ key ∙ keeps_payload run a.alert_key key shallow_error now db

pub requeue-verdicts :
    (run : String) (now : ℕ) (alerts : List AlertRecord) (db : Database)
    → (requeue run now alerts db).verdicts ≡ db.verdicts
unfolding requeue record_stage
requeue-verdicts run now [] db = refl
requeue-verdicts run now (a ∷ alerts) db = requeue-verdicts run now alerts _
