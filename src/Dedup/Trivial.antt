-- ===== src/Dedup/Trivial.antt =====
-- `trivial_clusters` and `_pick_canonical` of harness/dedup/index.py. The text of a cluster's id is an
-- argument, a function of the group's key.
pub mod Members
use Prim.Native.Nat.{compare, Ordering}
use dependabot_harness.Prelude.{
  ℕ, Bool, true, false, ◌&&◌, String, Option, none, some, List, [], ◌∷◌, Text, codes, or_default,
  length, ltb, ◌==◌, string_eq, text_eq, if◌then◌else◌,
}
use dependabot_harness.Prelude.Order.{compare_list, compare_pair}
use dependabot_harness.Prelude.Sort.{sorted}
use dependabot_harness.Prelude.Tables.{find}
use dependabot_harness.Alert.{AlertRecord}
use dependabot_harness.Stages.Dedup.{Cluster}
use dependabot_harness.Dedup.{
  InvertedIndex, Packages, package_of, same_package, append_at, reversed,
}

-- The advisory, the package with its major version, and the target version.
abbrev pub Group : Type 0
Group = String × (Packages × Text)

abbrev pub group_of : AlertRecord → Group
group_of alert = (alert.ghsa_id, (package_of alert, or_default alert.patched_ver []))

unfoldable pub same_group : Group → Group → Bool
same_group (g, (p, v)) (h, (q, w)) = g == h && (same_package p q && v == w)

unfoldable pub groups_from :
    List (Group × List String) → List (String × AlertRecord) → List (Group × List String)
groups_from groups [] = groups
groups_from groups ((key, alert) ∷ alerts) =
    groups_from (append_at same_group (group_of alert) key groups) alerts

unfoldable pub not_above : Ordering → Bool
not_above Ordering.gt = false
not_above _ = true

unfoldable pub key_before : String → String → Bool
key_before a b = not_above (compare_list compare (codes a) (codes b))

-- -1 comes before every major version.
unfoldable pub compare_major : Option ℕ → Option ℕ → Ordering
compare_major none none = Ordering.eq
compare_major none (some n) = Ordering.lt
compare_major (some m) none = Ordering.gt
compare_major (some m) (some n) = compare m n

unfoldable pub compare_keys : String → String → Ordering
compare_keys a b = compare_list compare (codes a) (codes b)

unfoldable pub group_before : Group × List String → Group × List String → Bool
group_before (g, members) (h, others) = not_above (
    compare_pair compare_keys
      (compare_pair (compare_pair (compare_list compare) compare_major) (compare_list compare)) g h)

-- `index.alerts[key]`, as the three parts of `rank`; a missing key is last.
unfoldable pub rank_of : InvertedIndex → String → ℕ × (ℕ × Text)
rank_of index key = elim (find (λ (k, a). k == key) index.alerts) [
  | none ↦ (2, (0, codes key))
  | some (k, alert) ↦ (
    (if or_default alert.is_direct false then 0 else 1),
    (or_default alert.cvss_score 0, codes key),
  )
]

unfoldable pub ranks_below : InvertedIndex → String → String → Bool
ranks_below index a b =
    elim (compare_pair compare (compare_pair reversed (compare_list compare)) (rank_of index a)
      (rank_of index b)) [ Ordering.lt ↦ true | _ ↦ false ]

-- `min(members, key=rank)`: the first of the least.
unfoldable pub pick_canonical : InvertedIndex → String → List String → String
pick_canonical index best [] = best
pick_canonical index best (m ∷ ms) =
    pick_canonical index (if ranks_below index m best then m else best) ms

-- The cluster of a group of at least two.
unfoldable pub cluster_of : (Group → String) → InvertedIndex → Group → List String → Option Cluster
cluster_of name index group [] = none
cluster_of name index group (m ∷ []) = none
cluster_of name index group (m ∷ n ∷ ms) = some (record {
  cluster_id = name group;
  canonical = pick_canonical index m (n ∷ ms);
  members = m ∷ n ∷ ms;
})

unfoldable pub cons_some : Option Cluster → List Cluster → List Cluster
cons_some none cs = cs
cons_some (some c) cs = c ∷ cs

unfoldable pub clusters_of :
    (Group → String) → InvertedIndex → List (Group × List String) → List Cluster
clusters_of name index [] = []
clusters_of name index ((group, members) ∷ groups) =
    cons_some (cluster_of name index group (sorted key_before members))
      (clusters_of name index groups)

-- `trivial_clusters`
unfoldable pub trivial_clusters : (Group → String) → InvertedIndex → List Cluster
trivial_clusters name index =
    clusters_of name index (sorted group_before (groups_from [] index.alerts))
