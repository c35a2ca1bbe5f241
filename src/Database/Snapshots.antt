-- ===== src/Database/Snapshots.antt =====
-- The snapshots of a repository's structure and the cached architecture, in harness/db.py.
use dependabot_harness.Prelude.{
  ℕ, ◌≡◌, refl, ap, ◌∙◌, Bool, false, not, ◌&&◌, String, Option, none, some, List, [], ◌∷◌, ltb,
  arith, filter, ◌==◌, string_eq, beq_refl, if◌then◌else◌,
}
use dependabot_harness.Prelude.Tables.{find, upsert, find-upsert, filter-upsert_ne}
use dependabot_harness.Database.{Database, SnapshotRow, ArchitectureRow, ArchitectureDoc}

abbrev of_commit : String → String → SnapshotRow → Bool
of_commit repo sha row = row.repo == repo && row.commit_sha == sha

abbrev seen_again : String → ℕ → SnapshotRow → SnapshotRow
seen_again hash now row = record row { structure_hash = hash; seen_at = now }

-- `record_snapshot`
unfoldable pub record_snapshot : String → String → String → ℕ → Database → Database
record_snapshot repo sha hash now db =
    let fresh : SnapshotRow = record {
      repo = repo;
      commit_sha = sha;
      structure_hash = hash;
      seen_at = now;
    } in
    record db { snapshots = upsert (of_commit repo sha) (seen_again hash now) fresh db.snapshots }

-- The newest, the later row of those that tie.
unfoldable pub last_seen : Option SnapshotRow → List SnapshotRow → Option SnapshotRow
last_seen best [] = best
last_seen none (row ∷ rows) = last_seen (some row) rows
last_seen (some best) (row ∷ rows) =
    last_seen (some (if ltb row.seen_at best.seen_at then best else row)) rows

abbrev hash_of : Option SnapshotRow → Option String
hash_of none = none
hash_of (some row) = some row.structure_hash

-- `before_commit`: an empty string excludes no commit.
abbrev of_other_commit : String → Option String → SnapshotRow → Bool
of_other_commit repo none row = row.repo == repo
of_other_commit repo (some sha) row =
    if sha == "" then row.repo == repo else row.repo == repo && not (row.commit_sha == sha)

-- `last_structure_hash`
unfoldable pub last_structure_hash : Database → String → Option String → Option String
unfolding last_seen
last_structure_hash db repo before =
    hash_of (last_seen none (filter (of_other_commit repo before) db.snapshots))

-- `structure_hash_for_commit`
unfoldable pub structure_hash_for_commit : Database → String → String → Option String
structure_hash_for_commit db repo sha = hash_of (find (of_commit repo sha) db.snapshots)

abbrev pub of_structure : String → String → ArchitectureRow → Bool
of_structure repo hash row = row.repo == repo && row.structure_hash == hash

-- `get_architecture`
unfoldable pub get_architecture : Database → String → String → Option ArchitectureRow
get_architecture db repo hash = find (of_structure repo hash) db.architecture

-- `put_architecture`
unfoldable pub put_architecture :
    String → String → String → ArchitectureDoc → ℕ → ℕ → Database → Database
put_architecture repo sha hash content cost now db =
    let row : ArchitectureRow = record {
      repo = repo;
      commit_sha = sha;
      structure_hash = hash;
      content = content;
      generated_at = now;
      cost_usd = cost;
    } in
    record db { architecture = upsert (of_structure repo hash) (λ old. row) row db.architecture }

-- The snapshot that was recorded is the one of its commit; those of other commits stay, and the last
-- structure before the commit is not changed by recording it.
pub record_snapshot_lem :
    (repo sha hash : String) (now : ℕ) (db : Database)
    → (sha == "") ≡ false
    → (structure_hash_for_commit (record_snapshot repo sha hash now db) repo sha ≡ some hash)
      × (last_structure_hash (record_snapshot repo sha hash now db) repo (some sha)
          ≡ last_structure_hash db repo (some sha))
unfolding record_snapshot structure_hash_for_commit last_structure_hash
record_snapshot_lem repo sha hash now db named =
    let fresh : SnapshotRow = record {
      repo = repo;
      commit_sha = sha;
      structure_hash = hash;
      seen_at = now;
    } in
    (
      ap hash_of (
            find-upsert (of_commit repo sha) (seen_again hash now) fresh db.snapshots
              (ground (arith, beq_refl repo, beq_refl sha)) (λ x h. h))
          ∙ either (find (of_commit repo sha) db.snapshots) fresh,
      ap (λ rows. hash_of (last_seen none rows))
          (filter-upsert_ne (of_commit repo sha) (of_other_commit repo (some sha))
            (seen_again hash now) fresh db.snapshots (ground (arith, named, beq_refl sha))
            (λ x h. ground (arith, named)) (λ x h. ground (arith, named))),
    )
  where
    either :
        (found : Option SnapshotRow) (fresh : SnapshotRow)
        → hash_of (
            some (elim found [
              | none ↦ record fresh { structure_hash = hash }
              | some x ↦ seen_again hash now x
            ]))
          ≡ some hash
    either none fresh = refl
    either (some x) fresh = refl
