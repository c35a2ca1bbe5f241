-- ===== src/Stages/Pipeline/Copies.antt =====
-- The writes of ingest and recon: a verdict is one that was there before, or a copy of one.
use dependabot_harness.Prelude.{
  ℕ, ◌≡◌, refl, ap, ◌∙◌, String, some, List, [], ◌∷◌, In, inl, inr, Bool-cases, Option-cases,
  Result-cases,
}
use dependabot_harness.Database.{
  Database, VerdictRow, verdict_row, record_stage, ingest, is_stage_complete,
}
use dependabot_harness.Database.Alerts.{upsert_alert}
use dependabot_harness.Database.Snapshots.{record_snapshot}
use dependabot_harness.Database.Members.{In-put_verdict, latest_verdict-In}
use dependabot_harness.Stages.Ingest.{
  Sources, RawAlert, IngestState, alert_key, gather, replay_candidate, store, store_replay,
  store_ingested, ingest_one, ingest_all, ingest_repo, count_total,
}
use dependabot_harness.Stages.Ingest.Replay.{candidate_found}

-- Each verdict of `after` says what one of `before` said, and is validated as that one was.
abbrev pub OnlyCopies : Database → Database → Type 0
OnlyCopies before after =
    (row : VerdictRow)
    → In row after.verdicts
    → (old : VerdictRow) × In old before.verdicts
      × (row.verdict ≡ old.verdict)
      × (row.validated ≡ old.validated)

chained : (a b c : Database) → OnlyCopies a b → OnlyCopies b c → OnlyCopies a c
chained a b c first second row m =
    let (old, there_before, says, judged) = second row m in
    let (older, first_there, said, was) = first old there_before in
    (older, first_there, says ∙ said, judged ∙ was)

module _ (sources : Sources) (ttl : ℕ) (run sha hash : String) (now : ℕ) where
  ingest_one-OnlyCopies :
      (raw : RawAlert) (s : IngestState)
      → OnlyCopies s.0 (ingest_one sources ttl run sha hash now raw s).0
  unfolding ingest_one store store_replay store_ingested record_stage upsert_alert verdict_row
  ingest_one-OnlyCopies raw (db, r) =
      let key = alert_key sources.digest raw in
      elim (Bool-cases (is_stage_complete db run key ingest)) [
        | inl complete ↦ rw (ingest_one, complete) (λ row m. (row, m, refl, refl))
        | inr open_row ↦ elim (Result-cases (gather sources raw key now db)) [
          | inr (e, raises) ↦ rw (ingest_one, open_row, raises) (λ row m. (row, m, refl, refl))
          | inl ((alert, scope), gathered) ↦
              elim (Option-cases (replay_candidate ttl now key hash db)) [
                | inl absent ↦
                    rw (ingest_one, open_row, gathered, absent) (λ row m. (row, m, refl, refl))
                | inr (prior, found) ↦
                    rw (ingest_one, open_row, gathered, found)
                      (λ row m.
                        elim (In-put_verdict key run prior.verdict prior.validated
                          prior.validator_notes (some hash) now (upsert_alert alert db) row m) [
                            | inr old ↦ (row, old, refl, refl)
                            | inl new ↦ (
                              prior,
                              latest_verdict-In db key prior
                                  (candidate_found ttl now key hash db prior found).latest,
                              ap (λ (v : VerdictRow). v.verdict) new,
                              ap (λ (v : VerdictRow). v.validated) new,
                            )
                          ])
              ]
        ]
      ]

  ingest_all-OnlyCopies :
      (alerts : List RawAlert) (s : IngestState)
      → OnlyCopies s.0 (ingest_all sources ttl run sha hash now alerts s).0
  unfolding ingest_all
  ingest_all-OnlyCopies [] s row m = (row, m, refl, refl)
  ingest_all-OnlyCopies (raw ∷ alerts) s row m =
      let t = ingest_one sources ttl run sha hash now raw (count_total s) in
      chained s.0 t.0 (ingest_all sources ttl run sha hash now alerts t).0
        (ingest_one-OnlyCopies raw (count_total s)) (ingest_all-OnlyCopies alerts t) row m

  pub ingest_repo-OnlyCopies :
      (repo : String) (alerts : List RawAlert) (db : Database)
      → OnlyCopies db (ingest_repo sources ttl run repo sha hash now alerts db).0
  unfolding ingest_repo record_snapshot
  ingest_repo-OnlyCopies repo alerts db =
      ingest_all-OnlyCopies alerts (record_snapshot repo sha hash now db, _)
