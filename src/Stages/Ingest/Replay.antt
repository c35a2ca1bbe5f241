-- ===== src/Stages/Ingest/Replay.antt =====
-- When a verdict is replayed, and how a replay renews it.
use dependabot_harness.Prelude.{
  ℕ, ◌+◌, ◌*◌, ◌≤◌, ◌≡◌, refl, subst, ◌↔◌, inl, inr, true, false, String, Option, none, some, arith,
  Bool-cases, Option-cases, Result-cases, eq_iff, beq_refl, string_eq, le_of_ltb-eq-false,
}
use dependabot_harness.Prelude.Tables.{find, find-upsert}
use dependabot_harness.Alert.{AlertRecord}
use dependabot_harness.Database.{
  Database, VerdictRow, ingest, record_stage, put_verdict, verdict_row, of_verdict, latest_verdict,
  is_stage_complete,
}
use dependabot_harness.Database.Alerts.{upsert_alert}
use dependabot_harness.Stages.Ingest.{
  Sources, RawAlert, RepoIngestResult, IngestState, ScopeResult, alert_key, gather, seconds_per_day,
  is_stale, same_hash, replay_candidate, store, store_replay, ingest_one, count_unsupported,
}
use dependabot_harness.Stages.Ingest.Accounts.{is_ok}

-- The verdict is the alert's latest, it is no older than the limit, and it describes the structure.
pub record IsFresh (ttl now : ℕ) (key hash : String) (db : Database) (prior : VerdictRow)
    : Type 0 where
  pub latest : latest_verdict db key ≡ some prior
  pub young : now ≤ prior.created_at + ttl * seconds_per_day
  pub unchanged : prior.structure_hash ≡ some hash

same_hash_iff : (o : Option String) (hash : String) → (same_hash o hash ≡ true) ↔ (o ≡ some hash)
same_hash_iff none hash = (λ h. cc, λ h. cc)
same_hash_iff (some other) hash = ground (arith, eq_iff other hash)

module _ (ttl now : ℕ) (key hash : String) (db : Database) where
  pub candidate_found :
      (prior : VerdictRow)
      → replay_candidate ttl now key hash db ≡ some prior
      → IsFresh ttl now key hash db prior
  unfolding replay_candidate
  candidate_found prior h = elim (Option-cases (latest_verdict db key)) [
    | inl absent ↦ ground (arith, absent, h)
    | inr (row, found) ↦ elim (Bool-cases (is_stale ttl now row.created_at)) [
      | inl stale ↦ ground (arith, found, stale, h)
      | inr young ↦ elim (Bool-cases (same_hash row.structure_hash hash)) [
        | inr changed ↦ ground (arith, found, young, changed, h)
        | inl same ↦
            let e : row ≡ prior = ground (arith, found, young, same, h) in
            subst (IsFresh ttl now key hash db) e (record {
              latest = found;
              young = omega (arith, le_of_ltb-eq-false (ttl * seconds_per_day) _ young);
              unchanged = (same_hash_iff row.structure_hash hash).0 same;
            })
      ]
    ]
  ]

  pub fresh_found :
      (prior : VerdictRow)
      → IsFresh ttl now key hash db prior
      → replay_candidate ttl now key hash db ≡ some prior
  unfolding replay_candidate
  fresh_found prior f =
      let young : is_stale ttl now prior.created_at ≡ false = ground (arith, f.young) in
      let same = (same_hash_iff prior.structure_hash hash).1 f.unchanged in
      rw (replay_candidate, f.latest, young, same) refl

-- The verdict that is copied for the run.
abbrev pub copied : String → String → String → ℕ → VerdictRow → VerdictRow
copied key run hash now prior =
    verdict_row key run prior.verdict prior.validated prior.validator_notes (some hash) now

abbrev pub row_of : Database → String → String → Option VerdictRow
row_of db key run = find (of_verdict key run) db.verdicts

-- A replay over one alert: of a fresh verdict, which the run now has as its own.
pub record IsReplay (ttl now : ℕ) (run key hash : String) (before after : Database) : Type 0 where
  pub prior : VerdictRow
  pub fresh : IsFresh ttl now key hash before prior
  pub copy : row_of after key run ≡ some (copied key run hash now prior)

latest-upsert_alert :
    (alert : AlertRecord) (db : Database) (key : String)
    → latest_verdict (upsert_alert alert db) key ≡ latest_verdict db key
unfolding upsert_alert latest_verdict
latest-upsert_alert alert db key = refl

module _ (ttl now : ℕ) (run key hash : String) (scope : ScopeResult) (db : Database) where
  store_replay-copies :
      (prior : VerdictRow)
      → row_of (store_replay run key hash scope now prior db) key run
        ≡ some (copied key run hash now prior)
  unfolding store_replay record_stage put_verdict verdict_row of_verdict
  store_replay-copies prior = elim (Option-cases (row_of db key run)) [
    | inl absent ↦
        rw
          (
            find-upsert (of_verdict key run) (λ old. copied key run hash now prior)
                (copied key run hash now prior) db.verdicts
                (ground (arith, beq_refl key, beq_refl run))
                (λ x h. ground (arith, beq_refl key, beq_refl run)),
            absent,
          )
          refl
    | inr (row, found) ↦
        rw
          (
            find-upsert (of_verdict key run) (λ old. copied key run hash now prior)
                (copied key run hash now prior) db.verdicts
                (ground (arith, beq_refl key, beq_refl run))
                (λ x h. ground (arith, beq_refl key, beq_refl run)),
            found,
          )
          refl
  ]

module _ (sources : Sources) (ttl : ℕ) (run sha hash : String) (now : ℕ) (raw : RawAlert) where
  -- A pass that replays: what it leaves is the replay's transaction.
  pub ingest_one-replayed :
      (s : IngestState) (prior : VerdictRow)
      → is_stage_complete s.0 run (alert_key sources.digest raw) ingest ≡ false
      → is_ok (gather sources raw (alert_key sources.digest raw) now s.0) ≡ true
      → replay_candidate ttl now (alert_key sources.digest raw) hash s.0 ≡ some prior
      → (alert : AlertRecord) × (scope : ScopeResult) × ((ingest_one sources ttl run sha hash now
            raw s).0
          ≡ store_replay run
              (alert_key sources.digest raw)
              hash
              scope
              now
              prior
              (upsert_alert alert s.0))
  unfolding ingest_one store
  ingest_one-replayed (db, r) prior fresh answers found =
      elim (Result-cases (gather sources raw (alert_key sources.digest raw) now db)) [
        | inr (e, raised) ↦ ground (arith, raised, answers)
        | inl ((alert, scope), gathered) ↦
            (alert, scope, rw (ingest_one, fresh, gathered, found) refl)
      ]

  -- An alert that was not complete is counted as replayed only where its latest verdict is no older
  -- than the limit and describes the present structure; the run then has a copy of that verdict.
  pub ingest_one-IsReplay :
      (db : Database) (r : RepoIngestResult)
      → is_stage_complete db run (alert_key sources.digest raw) ingest ≡ false
      → (ingest_one sources ttl run sha hash now raw (db, r)).1.replayed ≡ r.replayed + 1
      → IsReplay ttl now run
          (alert_key sources.digest raw)
          hash
          db
          (ingest_one sources ttl run sha hash now raw (db, r)).0
  unfolding ingest_one store
  ingest_one-IsReplay db r fresh counted =
      let key = alert_key sources.digest raw in
      elim (Result-cases (gather sources raw key now db)) [
        | inr (e, raised) ↦
            absurd (ground (arith, fresh, raised, counted, unsupported_replayed raw r))
        | inl ((alert, scope), gathered) ↦
            elim (Option-cases (replay_candidate ttl now key hash db)) [
              | inl absent ↦
                  absurd
                    (ground (arith, fresh, gathered, absent, counted, unsupported_replayed raw r))
              | inr (prior, found) ↦
                  rw (ingest_one, fresh, gathered, found)
                    (record {
                      prior = prior;
                      fresh = candidate_found ttl now key hash db prior found;
                      copy =
                          store_replay-copies ttl now run key hash scope (upsert_alert alert db)
                            prior;
                    })
            ]
      ]
    where
      unsupported_replayed :
          (raw : RawAlert) (r : RepoIngestResult) → (count_unsupported raw r).replayed ≡ r.replayed
      unsupported_replayed raw r = ground arith
