-- ===== src/Stages/Dedup.antt =====
-- harness/stages/dedup.py: what becomes of the agent's clusters, and how a canonical verdict is
-- copied to the other members. (A cluster's rationale and the key `validator_agreed`, which is
-- always null here, are left out.)
pub mod Clusters
pub mod Distinct
use dependabot_harness.Prelude.{
  ℕ, ◌+◌, Bool, true, false, not, ◌&&◌, String, Option, none, some, List, [], ◌∷◌, ◌++◌, Text,
  codes, length, ltb, all, any, filter, ◌==◌, string_eq, if◌then◌else◌,
}
use dependabot_harness.Prelude.Tables.{find, upsert}
use dependabot_harness.Verdict.{VerdictDoc}
use dependabot_harness.Database.{
  Database, ClusterRow, VerdictRow, Stage, Status, done, skipped, dedup, Payload, cluster_payload,
  stage_write, record_stage, put_verdict, latest_verdict,
}

pub record Cluster : Type 0 where
  pub cluster_id : String
  pub canonical : String
  pub members : List String

-- One entry of the response's `clusters`.
pub record Proposal : Type 0 where
  pub canonical : String
  pub members : List String

abbrev pub member_of : List String → String → Bool
member_of keys key = any (λ k. k == key) keys

-- `dict.fromkeys`: the first of each.
unfoldable pub distinct : List String → List String
distinct [] = []
distinct (k ∷ ks) = k ∷ filter (λ other. not (other == k)) (distinct ks)

-- The conditions of the loop in `_validated_clusters`, in the code's order.
unfoldable pub is_valid : List String → List String → Proposal → Bool
is_valid allowed known p =
    not (ltb (length (distinct p.members)) 2)
    && (member_of (distinct p.members) p.canonical
        && (all (member_of allowed) (distinct p.members)
            && all (member_of known) (distinct p.members)))

-- `_validated_clusters`; `agent_id` is the prefix `agent:` put before the canonical key.
unfoldable pub validated_clusters :
    (String → String) → List String → List String → List Proposal → List Cluster
validated_clusters agent_id allowed known [] = []
validated_clusters agent_id allowed known (p ∷ ps) =
    let rest = validated_clusters agent_id allowed known ps in
    if is_valid allowed known p
    then record {
      cluster_id = agent_id p.canonical;
      canonical = p.canonical;
      members = distinct p.members;
    }
      ∷ rest
    else rest

-- INSERT INTO dedup_clusters ... ON CONFLICT(cluster_id, alert_key) DO UPDATE
abbrev put_cluster : String → String → Bool → Database → Database
put_cluster id key canonical db = record db {
  clusters =
      upsert (λ row. row.cluster_id == id && row.alert_key == key)
        (λ row. record row { is_canonical = canonical })
        (record { cluster_id = id; alert_key = key; is_canonical = canonical }) db.clusters;
}

-- The inner loop of `_record`, with the count of suppressed alerts.
record_member : String → ℕ → Cluster → String → Database × ℕ → Database × ℕ
record_member run now c member (db, suppressed) =
    let stored = put_cluster c.cluster_id member (member == c.canonical) db in
    if member == c.canonical
    then (
      record_stage run member dedup
          (stage_write done (some (cluster_payload (some c.cluster_id) true none))) now stored,
      suppressed,
    )
    else (
      record_stage run member dedup
          (stage_write skipped
            (some (cluster_payload (some c.cluster_id) false (some c.canonical))))
          now stored,
      suppressed + 1,
    )

unfoldable pub record_members : String → ℕ → Cluster → List String → Database × ℕ → Database × ℕ
unfolding record_member
record_members run now c [] s = s
record_members run now c (m ∷ ms) s = record_members run now c ms (record_member run now c m s)

-- The row of the cluster's canonical member.
pub canonical_key : List ClusterRow → String → Option String
canonical_key rows id = elim (find (λ row. row.cluster_id == id && row.is_canonical) rows) [
  | none ↦ none
  | some row ↦ some row.alert_key
]

abbrev inherited : String → String → VerdictDoc → VerdictDoc
inherited member source doc = record doc {
  alert_key = member;
  inherited_from = some source;
  decided_by = some "dedup_inheritance";
}

unfoldable pub copy_verdict : String → ℕ → String → String → Database × ℕ → Database × ℕ
copy_verdict run now member source (db, copied) = elim (latest_verdict db source) [
  | none ↦ (db, copied)
  | some row ↦ (
    put_verdict member run (inherited member source row.verdict) none
        (some (
          codes "inherited from "
          ++ (codes source ++ codes "; the validator did not examine this alert")))
        row.structure_hash now db,
    copied + 1,
  )
]

-- The body of the loop in `propagate_verdicts`, for one row that is not canonical.
unfoldable pub propagate_row : String → ℕ → ClusterRow → Database × ℕ → Database × ℕ
unfolding copy_verdict
propagate_row run now row (db, copied) = elim (canonical_key db.clusters row.cluster_id) [
  | none ↦ (db, copied)
  | some source ↦ copy_verdict run now row.alert_key source (db, copied)
]

unfoldable pub propagate_rows : String → ℕ → List ClusterRow → Database × ℕ → Database × ℕ
unfolding propagate_row
propagate_rows run now [] s = s
propagate_rows run now (row ∷ rows) s = propagate_rows run now rows (propagate_row run now row s)

-- `propagate_verdicts`
unfoldable pub propagate_verdicts : String → ℕ → Database → Database × ℕ
propagate_verdicts run now db =
    propagate_rows run now (filter (λ row. not row.is_canonical) db.clusters) (db, 0)
