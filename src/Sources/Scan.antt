-- ===== src/Sources/Scan.antt =====
-- harness/sources/osv_scan.py: the dependencies that the manifests of a checkout pin, and OSV's answers
-- for them in batches, with the account of what was not checked. The files, the adapters' parsers and
-- the service are arguments; an exception is a class and a text.
pub mod Batches
pub mod Manifests
pub mod Coverage
use dependabot_harness.Prelude.{
  ℕ, zero, suc, ◌+◌, Bool, true, false, not, ◌&&◌, String, Option, none, some, List, [], ◌∷◌, ◌++◌,
  Text, codes, length, take, drop, filter, ltb, leb, nat_beq, is_some, ◌==◌, text_eq, if◌then◌else◌,
  Result, ok, err, ◌>>=◌,
}
use dependabot_harness.Ecosystem.{get_adapter}
use dependabot_harness.Ecosystem.Manifest.{Dependency, is_pinned}

-- What `parse_dependencies`, or the reading before it, may raise.
pub data ReadError : Type 0 where
  os_error unparsable too_deep other_error : String → ReadError

-- A file of the checkout, with what `stat` and the adapter's parser say of it.
pub record RepoFile : Type 0 where
  pub name : Text
  pub path : Text
  pub size : Result String ℕ
  pub dependencies : Result ReadError (List Dependency)

pub record DiscoveredDependency : Type 0 where
  pub dependency : Dependency
  pub ecosystem : Text
  pub manifest_path : Text

-- The entries of `stats.errors`, by what they tell.
pub data Gap : Type 0 where
  no_adapter cannot_stat too_large not_read : Text → Gap
  batch_failed : ℕ → Gap
  advisory_failed : String → Gap

pub record ScanStats : Type 0 where
  pub manifests : ℕ
  pub dependencies : ℕ
  pub unpinned_skipped : ℕ
  pub queried : ℕ
  pub unqueried : ℕ
  pub advisories : ℕ
  pub errors : List Gap

abbrev pub fresh_stats : ScanStats
fresh_stats = record {
  manifests = 0;
  dependencies = 0;
  unpinned_skipped = 0;
  queried = 0;
  unqueried = 0;
  advisories = 0;
  errors = [];
}

-- `ScanStats.coverage_complete`
unfoldable pub coverage_complete : ScanStats → Bool
coverage_complete s = nat_beq s.unqueried 0 && nat_beq (length s.errors) 0

-- `MANIFESTS.get(name)`
unfoldable pub manifest_ecosystem : Text → Option Text
manifest_ecosystem name =
    if name == codes "go.mod"
    then some (codes "go")
    else if name == codes "requirements.txt"
    then some (codes "pip")
    else if name == codes "package-lock.json"
    then some (codes "npm")
    else if name == codes "Cargo.lock"
    then some (codes "cargo")
    else none

abbrev pub max_manifest_bytes : ℕ
max_manifest_bytes = 4000000

abbrev pub with_gap : Gap → ScanStats → ScanStats
with_gap gap s = record s { errors = s.errors ++ gap ∷ [] }

abbrev count_dependency : Bool → ScanStats → ScanStats
count_dependency pinned s = record s {
  dependencies = s.dependencies + 1;
  unpinned_skipped = if pinned then s.unpinned_skipped else s.unpinned_skipped + 1;
}

abbrev pub Discovery : Type 0
Discovery = List DiscoveredDependency × ScanStats

abbrev pub discovered : Text → RepoFile → Dependency → DiscoveredDependency
discovered ecosystem file dependency = record {
  dependency = dependency;
  ecosystem = ecosystem;
  manifest_path = file.path;
}

-- The loop over the dependencies of a manifest.
unfoldable pub take_pinned : Text → RepoFile → List Dependency → Discovery → Discovery
take_pinned ecosystem file [] d = d
take_pinned ecosystem file (dependency ∷ rest) (found, s) = take_pinned ecosystem file rest (
  if is_pinned dependency then found ++ discovered ecosystem file dependency ∷ [] else found,
  count_dependency (is_pinned dependency) s,
)

abbrev count_manifest : ScanStats → ScanStats
count_manifest s = record s { manifests = s.manifests + 1 }

-- One recognised manifest.
unfoldable pub read_manifest : Text → RepoFile → Discovery → Discovery
read_manifest ecosystem file (found, s) =
    if not (is_some (get_adapter ecosystem))
    then (found, with_gap (no_adapter file.path) s)
    else elim file.size [
      | err e ↦ (found, with_gap (cannot_stat file.path) s)
      | ok size ↦
          if ltb max_manifest_bytes size
          then (found, with_gap (too_large file.path) s)
          else elim file.dependencies [
            | err e ↦ (found, with_gap (not_read file.path) s)
            | ok dependencies ↦ take_pinned ecosystem file dependencies (found, count_manifest s)
          ]
    ]

-- `discover_dependencies`, run to its end, over the files of the walk.
unfoldable pub discover : List RepoFile → Discovery → Discovery
discover [] d = d
discover (file ∷ files) d = elim (manifest_ecosystem file.name) [
  | none ↦ discover files d
  | some ecosystem ↦ discover files (read_manifest ecosystem file d)
]

-- How a batch is answered, after its retries: an exception, an HTTP status, or the ids of the
-- vulnerabilities for each query (an entry without an id is dropped). A body of an answer that is
-- not JSON, at which `response.json()` raises out of the scan, is not in the model.
pub data Answer : Type 0 where
  raised : String → Answer
  status : ℕ → Answer
  results : List (List String) → Answer

abbrev pub batch_size : ℕ
batch_size = 500

-- `range(0, len(discovered), _BATCH_SIZE)`, on fuel.
unfoldable pub batches {ℓ} : {A : Type ℓ} → ℕ → ℕ → List A → List (List A)
batches fuel size [] = []
batches zero size (x ∷ xs) = []
batches (suc fuel) size (x ∷ xs) = take size (x ∷ xs) ∷ batches fuel size (drop size (x ∷ xs))

abbrev pub Match : Type 0
Match = DiscoveredDependency × List String

-- `if ids: out.append((item, ids))`, over `zip(chunk, results)`.
unfoldable pub matches : List DiscoveredDependency → List (List String) → List Match
matches [] answers = []
matches (item ∷ chunk) [] = []
matches (item ∷ chunk) (ids ∷ answers) =
    let rest = matches chunk answers in
    elim ids [ [] ↦ rest | id ∷ more ↦ (item, id ∷ more) ∷ rest ]

-- `_record_gap`
abbrev pub record_gap : List DiscoveredDependency → ScanStats → ScanStats
record_gap chunk s = record s {
  unqueried = s.unqueried + length chunk;
  errors = s.errors ++ batch_failed (length chunk) ∷ [];
}

abbrev count_queried : List DiscoveredDependency → ScanStats → ScanStats
count_queried chunk s = record s { queried = s.queried + length chunk }

-- One batch of `_query`.
unfoldable pub settle :
    Answer → List DiscoveredDependency → List Match × ScanStats → List Match × ScanStats
settle (raised e) chunk (out, s) = (out, record_gap chunk s)
settle (status code) chunk (out, s) = (out, record_gap chunk s)
settle (results answers) chunk (out, s) =
    if not (nat_beq (length answers) (length chunk))
    then (out, record_gap chunk s)
    else (out ++ matches chunk answers, count_queried chunk s)

unfoldable pub query_all :
    (List DiscoveredDependency → Answer)
    → List (List DiscoveredDependency)
    → List Match × ScanStats
    → List Match × ScanStats
query_all post [] d = d
query_all post (chunk ∷ chunks) d = query_all post chunks (settle (post chunk) chunk d)

-- `_query`
unfoldable pub query :
    (List DiscoveredDependency → Answer)
    → List DiscoveredDependency
    → ScanStats
    → List Match × ScanStats
query post found s = query_all post (batches (length found) batch_size found) ([], s)

-- `_advisory`, for each id of a match: an exception is a gap, no advisory is skipped.
unfoldable pub fetch_all :
    (String → Result String (Option String))
    → DiscoveredDependency
    → List String
    → List (DiscoveredDependency × String) × ScanStats
    → List (DiscoveredDependency × String) × ScanStats
fetch_all fetch item [] d = d
fetch_all fetch item (id ∷ ids) (out, s) = elim (fetch id) [
  | err e ↦ fetch_all fetch item ids (out, with_gap (advisory_failed id) s)
  | ok found ↦ elim found [
    | none ↦ fetch_all fetch item ids (out, s)
    | some advisory ↦
        fetch_all fetch item ids
          (out ++ (item, advisory) ∷ [], record s { advisories = s.advisories + 1 })
  ]
]

unfoldable pub alerts_of :
    (String → Result String (Option String))
    → List Match
    → List (DiscoveredDependency × String) × ScanStats
    → List (DiscoveredDependency × String) × ScanStats
alerts_of fetch [] d = d
alerts_of fetch ((item, ids) ∷ rest) d = alerts_of fetch rest (fetch_all fetch item ids d)

-- What `iter_alerts` does with the dependencies that were discovered.
unfoldable pub scan_found :
    (List DiscoveredDependency → Answer)
    → (String → Result String (Option String))
    → Discovery
    → List (DiscoveredDependency × String) × ScanStats
scan_found post fetch ([], s) = ([], s)
scan_found post fetch (item ∷ items, s) =
    let (out, asked) = query post (item ∷ items) s in alerts_of fetch out ([], asked)

-- `iter_alerts`, run to its end: each alert is its dependency and its advisory.
unfoldable pub scan :
    (List DiscoveredDependency → Answer)
    → (String → Result String (Option String))
    → List RepoFile
    → List (DiscoveredDependency × String) × ScanStats
scan post fetch files = scan_found post fetch (discover files ([], fresh_stats))
