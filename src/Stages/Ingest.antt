-- ===== src/Stages/Ingest.antt =====
-- harness/stages/ingest.py: alerts are enriched, stored, and answered from the cache of verdicts
-- where a fresh one describes the same structure. The sources (OSV, EPSS, KEV, the host's files) and
-- the manifest parsers are arguments that may raise; so are the digest of a key and the schema.
pub mod Replay
pub mod Renewal
pub mod Accounts
use dependabot_harness.Prelude.{
  ℕ, ◌+◌, ◌-◌, ◌*◌, Bool, true, false, not, ◌&&◌, ◌||◌, String, Option, none, some, List, [], ◌∷◌,
  ◌++◌, map, Text, codes, ltb, drop, is_some, or_default, ◌==◌, string_eq, text_eq, nat_beq,
  if◌then◌else◌, Result, ok, err, ◌>>=◌,
}
use dependabot_harness.Alert.{AlertRecord, Score, State}
use dependabot_harness.Util.{starts_with}
use dependabot_harness.Version.Parse.{strip}
use dependabot_harness.Ecosystem.{get_adapter, unknown}
use dependabot_harness.Database.{
  Database, VerdictRow, StageWrite, ingest, skipped, done, failed, Payload, cache_replay, ingested,
  stage_write, record_stage, is_stage_complete, stage_payload, latest_verdict, put_verdict,
}
use dependabot_harness.Database.Alerts.{upsert_alert, get_alert}
use dependabot_harness.Database.Snapshots.{record_snapshot, last_structure_hash}

-- `RawAlert`, less the fields that ingest does not read.
pub record RawAlert : Type 0 where
  pub repo : String
  pub number : ℕ
  pub state : State
  pub created_at : ℕ
  pub manifest_path : Text
  pub requirements : Option Text
  pub ghsa_id : String
  pub cve_id : Option String
  pub package_name : Text
  pub ecosystem : Text
  pub patched_version : Option Text
  pub severity : Option String
  pub cvss_score : Option Score

pub record ScopeResult : Type 0 where
  pub scope : String
  pub is_direct : Option Bool
  pub source : String

pub record Advisory : Type 0 where
  pub cve_id : Option String
  pub symbols : List String

-- An exception, by its text.
abbrev pub Raises : Type 0 → Type 0
Raises = Result String

pub record Sources : Type 0 where
  pub osv : String → Raises (Option Advisory)
  pub epss : String → Raises (Option Score)
  pub kev : Option String → Raises Bool
  -- `_manifest`, and the adapter's `resolve_scope`.
  pub manifest : Text → Raises (Option Text)
  pub resolve_scope : Text → Text → Raises ScopeResult
  pub schema : AlertRecord → Raises (Unit {0})
  pub digest : Text → String

pub record RepoIngestResult : Type 0 where
  pub structure_changed : Bool
  pub total : ℕ
  pub ingested : ℕ
  pub replayed : ℕ
  pub failed : ℕ
  pub unsupported_ecosystem : ℕ

abbrev purl_type : Text → Text
purl_type ecosystem =
    if ecosystem == codes "gomod" || ecosystem == codes "go"
    then codes "golang"
    else if ecosystem == codes "pip"
    then codes "pypi"
    else if ecosystem == codes "rust"
    then codes "cargo"
    else ecosystem

abbrev slash_colons : Text → Text
slash_colons = map (λ c. if nat_beq c b':' then b'/' else c)

-- `_purl`
unfoldable pub purl_of : RawAlert → Text
purl_of raw =
    let eco = purl_type raw.ecosystem in
    let name = if eco == codes "maven" then slash_colons raw.package_name else raw.package_name in
    codes "pkg:" ++ (eco ++ (b'/' ∷ name))

-- `_resolved_version`: a requirement that pins no version is none.
unfoldable pub resolved_version : RawAlert → Option Text
unfolding strip starts_with
resolved_version raw =
    let req = strip (or_default raw.requirements []) in
    if starts_with req (codes "= ")
    then some (strip (drop 2 req))
    else if starts_with req (codes "=")
    then some (strip (drop 1 req))
    else none

-- `alert_key`: the digest of the parts, joined by `|`.
unfoldable pub alert_key : (Text → String) → RawAlert → String
alert_key digest raw = digest (
    codes raw.ghsa_id
    ++ (b'|'
        ∷ (purl_of raw
            ++ (b'|'
                ∷ (or_default (resolved_version raw) []
                    ++ (b'|' ∷ (raw.manifest_path ++ (b'|' ∷ codes raw.repo))))))))

abbrev unresolved : String → ScopeResult
unresolved source = record { scope = unknown; is_direct = none; source = source }

-- `_resolve_scope`: the adapter's exceptions become an unknown scope; those of the host do not.
unfoldable pub resolve_scope : Sources → RawAlert → Raises ScopeResult
resolve_scope sources raw =
    if not (is_some (get_adapter raw.ecosystem)) || raw.manifest_path == []
    then ok (unresolved "unsupported-ecosystem")
    else sources.manifest raw.manifest_path >>= λ text. elim text [
      | none ↦ ok (unresolved "manifest-unreadable")
      | some t ↦ elim (sources.resolve_scope t raw.package_name) [
        | ok scope ↦ ok scope
        | err e ↦ ok (unresolved "manifest-unparsable")
      ]
    ]

-- Python's `a or b`: an empty string is as good as none.
abbrev or_other : Option String → Option String → Option String
or_other none b = b
or_other (some a) b = if a == "" then b else some a

abbrev epss_of : Sources → Option String → Raises (Option Score)
epss_of sources none = ok none
epss_of sources (some cve) = if cve == "" then ok none else sources.epss cve

abbrev first_seen : Option AlertRecord → ℕ → ℕ
first_seen none created = created
first_seen (some existing) created = existing.first_seen_at

abbrev cve_of : RawAlert → Option Advisory → Option String
cve_of raw none = or_other raw.cve_id none
cve_of raw (some advisory) = or_other raw.cve_id advisory.cve_id

abbrev symbols_of : Option Advisory → Option (List String)
symbols_of none = none
symbols_of (some advisory) = some advisory.symbols

-- What `_ingest_one` gathers before it writes: every call that may raise.
unfoldable pub gather :
    Sources → RawAlert → String → ℕ → Database → Raises (AlertRecord × ScopeResult)
unfolding resolve_scope
gather sources raw key now db = do
  advisory ← sources.osv raw.ghsa_id
  let cve = cve_of raw advisory
  epss ← epss_of sources cve
  in_kev ← sources.kev cve
  scope ← resolve_scope sources raw
  let alert : AlertRecord = record {
    alert_key = key;
    repo = raw.repo;
    ghsa_id = raw.ghsa_id;
    purl = purl_of raw;
    ecosystem = raw.ecosystem;
    manifest_path = raw.manifest_path;
    gh_alert_num = raw.number;
    first_seen_at = first_seen (get_alert db key) raw.created_at;
    last_seen_at = now;
    state = raw.state;
    cve_id = cve;
    resolved_ver = resolved_version raw;
    patched_ver = raw.patched_version;
    dep_scope = some scope.scope;
    is_direct = scope.is_direct;
    cvss_score = raw.cvss_score;
    severity = raw.severity;
    epss_score = epss;
    in_kev = some in_kev;
    symbols = symbols_of advisory;
  }
  valid ← sources.schema alert
  ok (alert, scope)

abbrev pub seconds_per_day : ℕ
seconds_per_day = 86400

-- `age_days(created) > ttl`, in seconds; a time of the future has a negative age.
abbrev pub is_stale : ℕ → ℕ → ℕ → Bool
is_stale ttl now created = ltb (ttl * seconds_per_day) (now - created)

abbrev pub same_hash : Option String → String → Bool
same_hash none hash = false
same_hash (some other) hash = other == hash

-- `_cache_replay_candidate`
unfoldable pub replay_candidate : ℕ → ℕ → String → String → Database → Option VerdictRow
replay_candidate ttl now key hash db = elim (latest_verdict db key) [
  | none ↦ none
  | some prior ↦
      if is_stale ttl now prior.created_at
      then none
      else if not (same_hash prior.structure_hash hash)
      then none
      else some prior
]

abbrev has_symbols : AlertRecord → Bool
has_symbols alert = elim alert.symbols [
  | none ↦ false
  | some l ↦ elim l [ [] ↦ false | _ ∷ _ ↦ true ]
]

-- The transaction of a replay: the verdict is stored again, for this run and as of now. The payload has
-- the age in seconds, where the source rounds days.
unfoldable pub store_replay :
    String → String → String → ScopeResult → ℕ → VerdictRow → Database → Database
store_replay run key hash scope now prior db =
    record_stage run key ingest
      (stage_write skipped
        (some (cache_replay prior.run_id (now - prior.created_at) hash scope.source)))
      now
      (put_verdict key run prior.verdict prior.validated prior.validator_notes (some hash) now db)

unfoldable pub store_ingested :
    String → String → String → String → AlertRecord → ScopeResult → ℕ → Database → Database
store_ingested run key hash sha alert scope now db =
    record_stage run key ingest
      (stage_write done (
        some (
          ingested hash sha (has_symbols alert) scope.source
            (is_some (get_adapter alert.ecosystem)))))
      now db

abbrev pub was_replayed : Option Payload → Bool
was_replayed (some (cache_replay run age hash source)) = true
was_replayed _ = false

abbrev pub IngestState : Type 0
IngestState = Database × RepoIngestResult

abbrev count_replayed : RepoIngestResult → RepoIngestResult
count_replayed r = record r { replayed = r.replayed + 1 }

abbrev count_ingested : RepoIngestResult → RepoIngestResult
count_ingested r = record r { ingested = r.ingested + 1 }

abbrev count_unsupported : RawAlert → RepoIngestResult → RepoIngestResult
count_unsupported raw r =
    if is_some (get_adapter raw.ecosystem)
    then r
    else record r { unsupported_ecosystem = r.unsupported_ecosystem + 1 }

abbrev with_error : String → StageWrite
with_error error = record {
  status = failed;
  payload = none;
  error = some error;
  cost_usd = 0;
  tokens_in = 0;
  tokens_out = 0;
}

-- The `except` of the loop.
abbrev record_failure : String → String → String → ℕ → IngestState → IngestState
record_failure run key error now (db, r) =
    (record_stage run key ingest (with_error error) now db, record r { failed = r.failed + 1 })

-- The transaction, and the counter after it.
unfoldable pub store :
    String
    → String
    → String
    → String
    → AlertRecord
    → ScopeResult
    → ℕ
    → Option VerdictRow
    → IngestState
    → IngestState
store run key hash sha alert scope now none (db, r) =
    (store_ingested run key hash sha alert scope now (upsert_alert alert db), count_ingested r)
store run key hash sha alert scope now (some prior) (db, r) =
    (store_replay run key hash scope now prior (upsert_alert alert db), count_replayed r)

-- `_ingest_one`, with the handler of its exceptions.
unfoldable pub ingest_one :
    Sources → ℕ → String → String → String → ℕ → RawAlert → IngestState → IngestState
ingest_one sources ttl run sha hash now raw (db, r) =
    let key = alert_key sources.digest raw in
    if is_stage_complete db run key ingest
    then (
      db,
      if was_replayed (stage_payload db run key ingest) then count_replayed r else count_ingested r,
    )
    else elim (gather sources raw key now db) [
      | err e ↦ record_failure run key e now (db, count_unsupported raw r)
      | ok (alert, scope) ↦
          store run key hash sha alert scope now (replay_candidate ttl now key hash db)
            (db, count_unsupported raw r)
    ]

abbrev pub count_total : IngestState → IngestState
count_total (db, r) = (db, record r { total = r.total + 1 })

-- The loop of `run_repo`.
unfoldable pub ingest_all :
    Sources → ℕ → String → String → String → ℕ → List RawAlert → IngestState → IngestState
ingest_all sources ttl run sha hash now [] s = s
ingest_all sources ttl run sha hash now (raw ∷ alerts) s =
    ingest_all sources ttl run sha hash now alerts
      (ingest_one sources ttl run sha hash now raw (count_total s))

abbrev is_other : Option String → String → Bool
is_other none hash = false
is_other (some previous) hash = not (previous == hash)

-- `run_repo`, with the head of the branch and its structure hash.
unfoldable pub ingest_repo :
    Sources → ℕ → String → String → String → String → ℕ → List RawAlert → Database → IngestState
ingest_repo sources ttl run repo sha hash now alerts db =
    ingest_all sources ttl run sha hash now alerts (
      record_snapshot repo sha hash now db,
      record {
        structure_changed = is_other (last_structure_hash db repo (some sha)) hash;
        total = 0;
        ingested = 0;
        replayed = 0;
        failed = 0;
        unsupported_ecosystem = 0;
      },
    )
