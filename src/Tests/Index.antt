-- ===== src/Tests/Index.antt =====
-- The shortlist and the trivial clusters at concrete alerts.
use dependabot_harness.Prelude.{◌≡◌, refl, String, some, false, List, [], ◌∷◌, In, here, subst, sym}
use dependabot_harness.Alert.{AlertRecord}
use dependabot_harness.Dedup.{candidates, build_index}
use dependabot_harness.Dedup.Trivial.{Group, trivial_clusters}
use dependabot_harness.Dedup.Trivial.Members.{IsTrivial, trivial_clusters-IsTrivial}
use dependabot_harness.Stages.Dedup.{Cluster}
use dependabot_harness.Tests.Samples.{go_alert, newer_alert, crate_alert}

abbrev third_alert : AlertRecord
third_alert = record crate_alert { alert_key = "k3" }

abbrev three : List AlertRecord
three = go_alert ∷ newer_alert ∷ third_alert ∷ []

-- The third alert has the same advisory and manifest (9), the second the package and manifest (5).
best_first : candidates (build_index three) go_alert 1 ≡ "k3" ∷ []
unfolding candidates build_index dependabot_harness.Version.Parse.try_parse
    dependabot_harness.Version.major dependabot_harness.Dedup.keys_of
    dependabot_harness.Dedup.ranked dependabot_harness.Dedup.scores_of
    dependabot_harness.Dedup.add_scores dependabot_harness.Dedup.keys_at
    dependabot_harness.Dedup.build_from dependabot_harness.Dedup.add_alert
    dependabot_harness.Dedup.append_at dependabot_harness.Dedup.add_score
    dependabot_harness.Dedup.add_symbol_scores dependabot_harness.Dedup.major_of
    dependabot_harness.Dedup.ranks_before
best_first = refl

-- The alert of another manifest with the same advisory, package and versions, not a direct dependency.
abbrev indirect_alert : AlertRecord
indirect_alert = record go_alert { alert_key = "k0"; is_direct = some false }

abbrev advisory_name : Group → String
advisory_name group = group.0

abbrev pair_cluster : Cluster
pair_cluster = record { cluster_id = "GHSA-1"; canonical = "k1"; members = "k0" ∷ "k1" ∷ [] }

abbrev mixed : List AlertRecord
mixed = go_alert ∷ newer_alert ∷ third_alert ∷ indirect_alert ∷ []

-- The members are sorted; the direct dependency is canonical.
one_cluster : trivial_clusters advisory_name (build_index mixed) ≡ pair_cluster ∷ []
unfolding trivial_clusters build_index dependabot_harness.Dedup.Trivial.clusters_of
    dependabot_harness.Dedup.Trivial.cluster_of dependabot_harness.Dedup.Trivial.cons_some
    dependabot_harness.Prelude.Sort.sorted dependabot_harness.Prelude.Sort.insert_sorted
    dependabot_harness.Dedup.Trivial.groups_from dependabot_harness.Dedup.Trivial.same_group
    dependabot_harness.Dedup.Trivial.pick_canonical dependabot_harness.Dedup.Trivial.ranks_below
    dependabot_harness.Dedup.Trivial.rank_of dependabot_harness.Dedup.Trivial.not_above
    dependabot_harness.Dedup.Trivial.compare_major dependabot_harness.Dedup.Trivial.compare_keys
    dependabot_harness.Dedup.Trivial.key_before dependabot_harness.Dedup.Trivial.group_before
    dependabot_harness.Dedup.build_from dependabot_harness.Dedup.add_alert
    dependabot_harness.Dedup.append_at dependabot_harness.Dedup.major_of
    dependabot_harness.Dedup.keys_of dependabot_harness.Dedup.put_alert
    dependabot_harness.Prelude.Tables.find dependabot_harness.Version.Parse.try_parse
    dependabot_harness.Version.major
one_cluster = refl

listed : In pair_cluster (trivial_clusters advisory_name (build_index mixed))
listed = subst (In pair_cluster) (sym one_cluster) (here refl)

trivial_clusters-IsTrivial_example : IsTrivial (build_index mixed) pair_cluster
trivial_clusters-IsTrivial_example =
    trivial_clusters-IsTrivial advisory_name (build_index mixed) pair_cluster listed
