-- ===== src/Stages/Ingest/Accounts.antt =====
-- The counters of ingest, and the stage rows that it leaves behind.
use dependabot_harness.Prelude.{
  ℕ, ◌+◌, ◌≤◌, ◌≡◌, refl, ◌⊎◌, inl, inr, ◌∙◌, ap, sym, subst, Bool, true, false, String, Option,
  none, some, List, [], ◌∷◌, length, In, here, there, arith, is_some, Bool-cases, Option-cases,
  Result, ok, err, Result-cases, beq_refl, eq_iff, string_eq, ◌==◌, if◌then◌else◌,
}
use dependabot_harness.Alert.{AlertRecord}
use dependabot_harness.Database.{
  Database, VerdictRow, StageWrite, ingest, record_stage, put_verdict, stage_status,
  is_stage_complete, is_terminal, stage_row,
}
use dependabot_harness.Database.Alerts.{upsert_alert}
use dependabot_harness.Database.Snapshots.{record_snapshot}
use dependabot_harness.Database.Stages.{record_stage_lem, is_stage_complete-record_stage}
use dependabot_harness.Stages.Ingest.{
  Sources, RawAlert, RepoIngestResult, IngestState, ScopeResult, alert_key, gather,
  replay_candidate, store, store_replay, store_ingested, ingest_one, ingest_all, ingest_repo,
  count_unsupported, count_total,
}

-- How the counters move over one alert.
record Counts (before after : RepoIngestResult) : Type 0 where
  total : after.total ≡ before.total
  one :
      after.ingested + after.replayed + after.failed
      ≡ before.ingested + before.replayed + before.failed + 1
  unsupported : after.unsupported_ecosystem ≤ before.unsupported_ecosystem + 1

count_unsupported_lem :
    (raw : RawAlert) (r : RepoIngestResult)
    → let r' = count_unsupported raw r in
      (r'.total ≡ r.total)
      × (r'.ingested ≡ r.ingested)
      × (r'.replayed ≡ r.replayed)
      × (r'.failed ≡ r.failed)
      × (r'.unsupported_ecosystem ≤ r.unsupported_ecosystem + 1)
count_unsupported_lem raw r = ground arith

module _ (sources : Sources) (ttl : ℕ) (run sha hash : String) (now : ℕ) where
  ingest_one-Counts :
      (raw : RawAlert) (s : IngestState)
      → Counts s.1 (ingest_one sources ttl run sha hash now raw s).1
  unfolding ingest_one store
  ingest_one-Counts raw (db, r) =
      let key = alert_key sources.digest raw in
      elim (Bool-cases (is_stage_complete db run key ingest)) [
        | inl done ↦ ground (arith, done)
        | inr fresh ↦ elim (Result-cases (gather sources raw key now db)) [
          | inr (e, raised) ↦ ground (arith, fresh, raised, count_unsupported_lem raw r)
          | inl ((alert, scope), gathered) ↦
              elim (Option-cases (replay_candidate ttl now key hash db)) [
                | inl none_fresh ↦
                    ground (arith, fresh, gathered, none_fresh, count_unsupported_lem raw r)
                | inr (prior, found) ↦
                    ground (arith, fresh, gathered, found, count_unsupported_lem raw r)
              ]
        ]
      ]

  ingest_all-Counts :
      (alerts : List RawAlert) (s : IngestState)
      → let (db, r) = ingest_all sources ttl run sha hash now alerts s in
        (r.total ≡ s.1.total + length alerts)
        × (r.ingested + r.replayed + r.failed
            ≡ s.1.ingested + s.1.replayed + s.1.failed + length alerts)
        × (r.unsupported_ecosystem ≤ s.1.unsupported_ecosystem + length alerts)
  unfolding ingest_all
  ingest_all-Counts [] s = omega arith
  ingest_all-Counts (raw ∷ alerts) s =
      let one = ingest_one-Counts raw (count_total s) in
      let rest =
        ingest_all-Counts alerts (ingest_one sources ttl run sha hash now raw (count_total s)) in
      omega (arith, one.total, one.one, one.unsupported, rest)

abbrev pub is_ok : {A : Type 0} → Result String A → Bool
is_ok (ok a) = true
is_ok (err e) = false

-- One write to the alert's stage row, on a database whose other stage rows are as before.
record Writes (run key : String) (now : ℕ) (complete : Bool) (before after : Database)
    : Type 0 where
  write : StageWrite
  base : Database
  same : base.stage_results ≡ before.stage_results
  written : after ≡ record_stage run key ingest write now base
  terminal : is_terminal write.status ≡ complete

module _ (sources : Sources) (ttl : ℕ) (run sha hash : String) (now : ℕ) where
  store-Writes :
      (key : String) (alert : AlertRecord) (scope : ScopeResult) (found : Option VerdictRow)
      (s : IngestState)
      → Writes run key now true s.0 (store run key hash sha alert scope now found s).0
  unfolding store store_replay store_ingested upsert_alert put_verdict
  store-Writes key alert scope none (db, r) = record {
    write = _;
    base = upsert_alert alert db;
    same = refl;
    written = refl;
    terminal = refl;
  }
  store-Writes key alert scope (some prior) (db, r) = record {
    write = _;
    base =
        put_verdict key run prior.verdict prior.validated prior.validator_notes (some hash) now
          (upsert_alert alert db);
    same = refl;
    written = refl;
    terminal = refl;
  }

  ingest_one-Writes :
      (raw : RawAlert) (s : IngestState)
      → let key = alert_key sources.digest raw in
        is_stage_complete s.0 run key ingest ≡ false
        → Writes run key now
            (is_ok (gather sources raw key now s.0))
            s.0
            (ingest_one sources ttl run sha hash now raw s).0
  unfolding ingest_one
  ingest_one-Writes raw (db, r) fresh =
      let key = alert_key sources.digest raw in
      elim (Result-cases (gather sources raw key now db)) [
        | inr (e, raised) ↦
            rw (ingest_one, fresh, raised)
              (record { write = _; base = db; same = refl; written = refl; terminal = refl })
        | inl ((alert, scope), gathered) ↦
            rw (ingest_one, fresh, gathered)
              (store-Writes key alert scope (replay_candidate ttl now key hash db)
                (db, count_unsupported raw r))
      ]

complete_of_rows :
    (a b : Database) (run key : String)
    → a.stage_results ≡ b.stage_results
    → (is_stage_complete a run key ingest ≡ is_stage_complete b run key ingest)
      × (stage_status a run key ingest ≡ stage_status b run key ingest)
unfolding is_stage_complete stage_status stage_row
complete_of_rows a b run key same = (rw same refl, rw same refl)

abbrev is_recorded : Database → String → String → Bool
is_recorded db run key = is_some (stage_status db run key ingest)

module _ (run key key' : String) (now : ℕ) (complete : Bool) (before after : Database) where
  -- What a write leaves of the completion of each alert.
  Writes-complete :
      Writes run key now complete before after
      → is_stage_complete after run key' ingest
        ≡ (if key == key' then complete else is_stage_complete before run key' ingest)
  Writes-complete w =
      ap (λ db. is_stage_complete db run key' ingest) w.written
      ∙ is_stage_complete-record_stage run key ingest w.write now w.base run key' ingest
      ∙ ground (arith, beq_refl run, w.terminal, complete_of_rows w.base before run key' w.same)

  Writes-recorded :
      Writes run key now complete before after
      → ((key == key') ≡ true ⊎ is_recorded before run key' ≡ true)
      → is_recorded after run key' ≡ true
  Writes-recorded w h =
      let l = record_stage_lem run key ingest w.write now w.base in
      elim (Bool-cases (key == key')) [
        | inl same ↦ ground (arith, eq_iff key key', w.written, l.0)
        | inr differ ↦ ground (
          arith,
          w.written,
          l.4 run key' ingest (ground (arith, differ)),
          h,
          complete_of_rows w.base before run key' w.same,
        )
      ]

module _ (sources : Sources) (ttl : ℕ) (run sha hash : String) (now : ℕ) where
  abbrev pass : RawAlert → IngestState → IngestState
  pass raw s = ingest_one sources ttl run sha hash now raw s

  abbrev key_of : RawAlert → String
  key_of raw = alert_key sources.digest raw

  resumed :
      (raw : RawAlert) (s : IngestState)
      → is_stage_complete s.0 run (key_of raw) ingest ≡ true
      → (pass raw s).0 ≡ s.0
  unfolding ingest_one
  resumed raw (db, r) done = rw (ingest_one, done) refl

  -- A completed alert stays complete, and one whose sources answer becomes complete.
  pass_complete :
      (raw : RawAlert) (s : IngestState) (key' : String)
      → (is_stage_complete s.0 run key' ingest ≡ true)
        ⊎ ((key_of raw == key') ≡ true) × (is_ok (gather sources raw (key_of raw) now s.0) ≡ true)
      → is_stage_complete (pass raw s).0 run key' ingest ≡ true
  pass_complete raw s key' h = elim (Bool-cases (is_stage_complete s.0 run (key_of raw) ingest)) [
    | inl done ↦
        let e = ap (λ db. is_stage_complete db run key' ingest) (resumed raw s done) in
        ground (arith, e, h, done, eq_iff (key_of raw) key')
    | inr fresh ↦
        let w =
          Writes-complete run (key_of raw) key' now _ s.0 (pass raw s).0
            (ingest_one-Writes sources ttl run sha hash now raw s fresh) in
        ground (arith, w, h, fresh, eq_iff (key_of raw) key')
  ]

  complete_recorded :
      (db : Database) (key : String)
      → is_stage_complete db run key ingest ≡ true
      → is_recorded db run key ≡ true
  unfolding is_stage_complete
  complete_recorded db key h = ground (arith, h)

  pass_recorded :
      (raw : RawAlert) (s : IngestState) (key' : String)
      → (is_recorded s.0 run key' ≡ true) ⊎ (key_of raw == key') ≡ true
      → is_recorded (pass raw s).0 run key' ≡ true
  pass_recorded raw s key' h = elim (Bool-cases (is_stage_complete s.0 run (key_of raw) ingest)) [
    | inl done ↦
        let e = ap (λ db. is_recorded db run key') (resumed raw s done) in
        let known = complete_recorded s.0 (key_of raw) done in
        ground (arith, e, h, known, eq_iff (key_of raw) key')
    | inr fresh ↦
        Writes-recorded run (key_of raw) key' now _ s.0 (pass raw s).0
          (ingest_one-Writes sources ttl run sha hash now raw s fresh)
          (elim h [ inl old ↦ inr old | inr same ↦ inl same ])
  ]

  abbrev pass_all : List RawAlert → IngestState → IngestState
  pass_all alerts s = ingest_all sources ttl run sha hash now alerts s

  all_recorded :
      (alerts : List RawAlert) (s : IngestState) (key' : String)
      → is_recorded s.0 run key' ≡ true
      → is_recorded (pass_all alerts s).0 run key' ≡ true
  unfolding ingest_all
  all_recorded [] s key' h = h
  all_recorded (raw ∷ alerts) s key' h =
      all_recorded alerts (pass raw (count_total s)) key'
        (pass_recorded raw (count_total s) key' (inl h))

  each_recorded :
      (alerts : List RawAlert) (s : IngestState) (raw : RawAlert)
      → In raw alerts
      → is_recorded (pass_all alerts s).0 run (key_of raw) ≡ true
  unfolding ingest_all
  each_recorded [] s raw m = elim m [ ]
  each_recorded (x ∷ alerts) s raw (here same) =
      all_recorded alerts (pass x (count_total s)) (key_of raw) (
        pass_recorded x (count_total s) (key_of raw)
          (inr (subst (λ a. (key_of x == key_of a) ≡ true) (sym same) (beq_refl (key_of x)))))
  each_recorded (x ∷ alerts) s raw (there later) =
      each_recorded alerts (pass x (count_total s)) raw later

  all_complete :
      (alerts : List RawAlert) (s : IngestState) (key' : String)
      → is_stage_complete s.0 run key' ingest ≡ true
      → is_stage_complete (pass_all alerts s).0 run key' ingest ≡ true
  unfolding ingest_all
  all_complete [] s key' h = h
  all_complete (raw ∷ alerts) s key' h =
      all_complete alerts (pass raw (count_total s)) key'
        (pass_complete raw (count_total s) key' (inl h))

  each_complete :
      (alerts : List RawAlert) (s : IngestState) (raw : RawAlert)
      → In raw alerts
      → ((db : Database) → is_ok (gather sources raw (key_of raw) now db) ≡ true)
      → is_stage_complete (pass_all alerts s).0 run (key_of raw) ingest ≡ true
  unfolding ingest_all
  each_complete [] s raw m answers = elim m [ ]
  each_complete (x ∷ alerts) s raw (here same) answers =
      let answer =
        subst (λ a. is_ok (gather sources a (key_of a) now s.0) ≡ true) same (answers s.0) in
      all_complete alerts (pass x (count_total s)) (key_of raw) (
        pass_complete x (count_total s) (key_of raw) (
          inr
            (subst (λ a. (key_of x == key_of a) ≡ true) (sym same) (beq_refl (key_of x)), answer)))
  each_complete (x ∷ alerts) s raw (there later) answers =
      each_complete alerts (pass x (count_total s)) raw later answers

module _ (sources : Sources) (ttl : ℕ) (run repo sha hash : String) (now : ℕ)
    (alerts : List RawAlert) (db : Database) where
  -- Every alert that the source lists is counted once, as ingested, replayed or failed, and has a row
  -- for the stage in this run.
  pub ingest_repo_accounts :
      let (db', r) = ingest_repo sources ttl run repo sha hash now alerts db in
      (r.total ≡ length alerts)
      × (r.ingested + r.replayed + r.failed ≡ length alerts)
      × (r.unsupported_ecosystem ≤ length alerts)
      × ((raw : RawAlert)
          → In raw alerts
          → is_some (stage_status db' run (alert_key sources.digest raw) ingest) ≡ true)
  unfolding ingest_repo
  ingest_repo_accounts =
      let start : IngestState = (
        record_snapshot repo sha hash now db,
        record {
          structure_changed = _;
          total = 0;
          ingested = 0;
          replayed = 0;
          failed = 0;
          unsupported_ecosystem = 0;
        },
      ) in
      let counts = ingest_all-Counts sources ttl run sha hash now alerts start in
      (
        omega (arith, counts),
        omega (arith, counts),
        omega (arith, counts),
        λ raw m. each_recorded sources ttl run sha hash now alerts start raw m,
      )

  -- Whatever earlier passes of the run left behind, an alert that the source lists and whose sources
  -- answer is complete after a pass.
  pub ingest_repo_completes :
      (raw : RawAlert)
      → In raw alerts
      → ((db' : Database)
          → is_ok (gather sources raw (alert_key sources.digest raw) now db') ≡ true)
      → is_stage_complete
          (ingest_repo sources ttl run repo sha hash now alerts db).0
          run
          (alert_key sources.digest raw)
          ingest
        ≡ true
  unfolding ingest_repo
  ingest_repo_completes raw m answers =
      each_complete sources ttl run sha hash now alerts _ raw m answers
