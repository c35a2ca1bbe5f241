-- ===== src/Stages/Ingest/Renewal.antt =====
-- A replay stores the verdict as of now, so that its age starts again.
use dependabot_harness.Prelude.{
  ℕ, ◌+◌, ◌*◌, ◌≤◌, ◌<◌, ◌≡◌, ◌↔◌, refl, sym, ap, ◌∙◌, subst, inl, inr, true, false, String, none,
  some, List, [], ◌∷◌, filter, arith, Bool-cases, string_eq, ◌==◌,
}
use dependabot_harness.Prelude.Tables.{upsert}
use dependabot_harness.Alert.{AlertRecord}
use dependabot_harness.Verdict.{VerdictDoc}
use dependabot_harness.Database.{
  Database, VerdictRow, ingest, record_stage, put_verdict, verdict_row, of_verdict, latest_verdict,
  newest, is_stage_complete,
}
use dependabot_harness.Database.Alerts.{upsert_alert}
use dependabot_harness.Database.Verdicts.{All, IsPast, latest_verdict-put_verdict}
use dependabot_harness.Stages.Ingest.{
  Sources, RawAlert, RepoIngestResult, ScopeResult, alert_key, gather, seconds_per_day,
  store_replay, ingest_one,
}
use dependabot_harness.Stages.Ingest.Accounts.{is_ok}
use dependabot_harness.Stages.Ingest.Replay.{IsFresh, fresh_found, copied, ingest_one-replayed}

-- All verdicts of an alert are from up to a time.
abbrev pub UpTo : String → ℕ → VerdictRow → Type 0
UpTo key time row = (row.alert_key == key) ≡ true → row.created_at ≤ time

UpTo-IsPast :
    (key run : String) (time now : ℕ) (rows : List VerdictRow)
    → time < now
    → All (UpTo key time) rows
    → All (IsPast key run now) rows
UpTo-IsPast key run time now [] later h = tt
UpTo-IsPast key run time now (x ∷ xs) later (p, h) = (
  λ m. (omega (arith, p m, later), λ n. omega (arith, p m, later)),
  UpTo-IsPast key run time now xs later h,
)

UpTo-upsert :
    (key run : String) (time now : ℕ) (row : VerdictRow) (rows : List VerdictRow)
    → time < now
    → row.created_at ≤ now
    → All (UpTo key time) rows
    → All (UpTo key now) (upsert (of_verdict key run) (λ old. row) row rows)
unfolding upsert
UpTo-upsert key run time now row [] later young h = (λ m. young, tt)
UpTo-upsert key run time now row (x ∷ xs) later young (p, h) =
    elim (Bool-cases (of_verdict key run x)) [
      | inl same ↦ rw (upsert, same) (λ m. young, widen xs h)
      | inr other ↦
          rw (upsert, other)
            (λ m. omega (arith, p m, later), UpTo-upsert key run time now row xs later young h)
    ]
  where
    widen : (ys : List VerdictRow) → All (UpTo key time) ys → All (UpTo key now) ys
    widen [] h = tt
    widen (y ∷ ys) (q, h) = (λ m. omega (arith, q m, later), widen ys h)

-- The alert's latest verdict is this document, stored at a time and for a structure.
record Holds (key hash : String) (doc : VerdictDoc) (db : Database) (time : ℕ) : Type 0 where
  row : VerdictRow
  latest : latest_verdict db key ≡ some row
  same : row.verdict ≡ doc
  stored : row.created_at ≡ time
  unchanged : row.structure_hash ≡ some hash
  newest : All (UpTo key time) db.verdicts

module _ (ttl : ℕ) (run key hash : String) (scope : ScopeResult) (alert : AlertRecord)
    (db : Database) (doc : VerdictDoc) (time now : ℕ) where
  store_replay-Holds :
      (h : Holds key hash doc db time)
      → time < now
      → Holds key hash doc (store_replay run key hash scope now h.row (upsert_alert alert db)) now
  unfolding store_replay record_stage upsert_alert verdict_row put_verdict latest_verdict
  store_replay-Holds h later =
      let new = copied key run hash now h.row in
      record {
        row = new;
        latest =
            latest_verdict-put_verdict key run h.row.verdict h.row.validated h.row.validator_notes
              (some hash) now (upsert_alert alert db)
              (UpTo-IsPast key run time now db.verdicts later h.newest);
        same = h.same;
        stored = refl;
        unchanged = refl;
        newest = UpTo-upsert key run time now new db.verdicts later (omega arith) h.newest;
      }

-- The verdicts of one alert.
abbrev pub verdicts_of : String → Database → List VerdictRow
verdicts_of key db = filter (λ row. row.alert_key == key) db.verdicts

UpTo_iff :
    (key : String) (time : ℕ) (rows : List VerdictRow)
    → All (UpTo key time) rows
      ↔ All
          (λ (row : VerdictRow). row.created_at ≤ time)
          (filter (λ row. row.alert_key == key) rows)
UpTo_iff key time [] = (λ h. tt, λ h. tt)
UpTo_iff key time (x ∷ xs) =
    let (into, out) = UpTo_iff key time xs in
    elim (Bool-cases (x.alert_key == key)) [
      | inl same ↦ rw same (λ (p, h). (p refl, into h), λ (p, h). (λ m. p, out h))
      | inr other ↦ rw other (λ (p, h). into h, λ h. (λ m. absurd (ground (arith, m)), out h))
    ]

-- Other writes leave a document that holds where it is, if they leave the alert's verdicts.
unwritten :
    (key hash : String) (doc : VerdictDoc) (before next : Database) (time : ℕ)
    → Holds key hash doc before time
    → verdicts_of key next ≡ verdicts_of key before
    → Holds key hash doc next time
unfolding latest_verdict
unwritten key hash doc before next time h same = record {
  row = h.row;
  latest = ap (newest none) same ∙ h.latest;
  same = h.same;
  stored = h.stored;
  unchanged = h.unchanged;
  newest = (UpTo_iff key time next.verdicts).1 (
      subst (All (λ (row : VerdictRow). row.created_at ≤ time)) (sym same)
        ((UpTo_iff key time before.verdicts).0 h.newest));
}

-- Passes of runs over the alert, each after the one before by no more than the limit, at one structure:
-- the alert is not yet complete in the run, and the sources answer. What else is written between them
-- leaves the alert's verdicts as they are.
pub data Passes (sources : Sources) (ttl : ℕ) (hash : String) (raw : RawAlert) (db : Database)
    (time : ℕ) : Database → ℕ → Type 0 where
  stop : Passes sources ttl hash raw db time db time
  between :
      {before : Database} {last : ℕ} (next : Database)
      → Passes sources ttl hash raw db time before last
      → verdicts_of (alert_key sources.digest raw) next
        ≡ verdicts_of (alert_key sources.digest raw) before
      → Passes sources ttl hash raw db time next last
  pass :
      {before : Database} {last : ℕ} (run sha : String) (now : ℕ) (r : RepoIngestResult)
      → Passes sources ttl hash raw db time before last
      → is_stage_complete before run (alert_key sources.digest raw) ingest ≡ false
      → is_ok (gather sources raw (alert_key sources.digest raw) now before) ≡ true
      → last < now
      → now ≤ last + ttl * seconds_per_day
      → Passes sources ttl hash raw db time
          (ingest_one sources ttl run sha hash now raw (before, r)).0
          now

passes-Holds :
    {sources : Sources} {ttl : ℕ} {hash : String} {raw : RawAlert} {db : Database} {time : ℕ}
    {after : Database} {last : ℕ} (doc : VerdictDoc)
    → Holds (alert_key sources.digest raw) hash doc db time
    → Passes sources ttl hash raw db time after last
    → Holds (alert_key sources.digest raw) hash doc after last
passes-Holds doc h stop = h
passes-Holds {sources} {ttl} {hash} {raw} doc h (between {before} {last} next earlier same) =
    unwritten (alert_key sources.digest raw) hash doc before next last (passes-Holds doc h earlier)
      same
passes-Holds {sources} {ttl} {hash} {raw} doc h
      (pass {before} {last} run sha now r earlier fresh answers later soon) =
    let key = alert_key sources.digest raw in
    let held = passes-Holds doc h earlier in
    let found = fresh_found ttl now key hash before held.row (record {
      latest = held.latest;
      young = omega (arith, held.stored, soon);
      unchanged = held.unchanged;
    }) in
    let (alert, scope, e) =
      ingest_one-replayed sources ttl run sha hash now raw (before, r) held.row fresh answers
        found in
    subst (λ d. Holds key hash doc d now) (sym e)
      (store_replay-Holds ttl run key hash scope alert before doc last now held later)

-- At one structure hash, that of the alert's newest verdict and of each pass, a verdict never
-- expires while passes over the alert, in each of which its sources answer and it is not yet
-- complete, follow one another, each strictly later than the one before and within the limit, and
-- nothing else writes a verdict of the alert in between: after any number of them the latest verdict
-- is the document that was the newest at the start, however long ago that was, and it counts as
-- fresh for another pass within the limit.
pub verdict_never_expires :
    (sources : Sources) (ttl : ℕ) (hash : String) (raw : RawAlert) (db after : Database)
    (origin : VerdictRow) (last now : ℕ)
    → latest_verdict db (alert_key sources.digest raw) ≡ some origin
    → origin.structure_hash ≡ some hash
    → All (UpTo (alert_key sources.digest raw) origin.created_at) db.verdicts
    → Passes sources ttl hash raw db origin.created_at after last
    → now ≤ last + ttl * seconds_per_day
    → (row : VerdictRow) × (row.verdict ≡ origin.verdict)
      × IsFresh ttl now (alert_key sources.digest raw) hash after row
verdict_never_expires sources ttl hash raw db after origin last now latest unchanged newest passes
      soon =
    let start : Holds (alert_key sources.digest raw) hash origin.verdict db origin.created_at =
      record {
        row = origin;
        latest = latest;
        same = refl;
        stored = refl;
        unchanged = unchanged;
        newest = newest;
      } in
    let held = passes-Holds origin.verdict start passes in
    (
      held.row,
      held.same,
      record {
        latest = held.latest;
        young = omega (arith, held.stored, soon);
        unchanged = held.unchanged;
      },
    )
