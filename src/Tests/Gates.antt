-- ===== src/Tests/Gates.antt =====
-- The dismissal gate, the mechanical checks and the check of clusters at concrete verdicts.
use dependabot_harness.Prelude.{◌≡◌, refl, ◌↔◌, true, none, some, List, [], ◌∷◌, codes, In}
use dependabot_harness.Emit.Dismissal.{evaluate, IsCleared}
use dependabot_harness.Emit.Dismissal.Cleared.{evaluate_iff}
use dependabot_harness.Validation.{report_passed, check_verdict}
use dependabot_harness.Validation.Checks.{IsAccepted, check_verdict_iff}
use dependabot_harness.Stages.Dedup.{
  Cluster, Proposal, member_of, validated_clusters, distinct, is_valid,
}
use dependabot_harness.Stages.Dedup.Clusters.{IsGrouping, Proposed, validated_clusters_iff}
use dependabot_harness.Stages.Dedup.Distinct.{all_iff}
use dependabot_harness.Tests.Samples.{any_schema, cleared_doc, sample_checkout, open_gate}

evaluate_iff_example :
    ((evaluate open_gate cleared_doc (some true)).allowed ≡ true)
    ↔ IsCleared open_gate cleared_doc (some true)
evaluate_iff_example = evaluate_iff open_gate cleared_doc (some true)

check_verdict_iff_example :
    (report_passed
        (check_verdict any_schema cleared_doc none (some sample_checkout) (some (codes "go")))
      ≡ true)
    ↔ IsAccepted any_schema cleared_doc none (some sample_checkout) (some (codes "go"))
check_verdict_iff_example =
    check_verdict_iff any_schema cleared_doc none (some sample_checkout) (some (codes "go"))

abbrev proposals : List Proposal
proposals =
    record { canonical = "k9"; members = "k1" ∷ "k9" ∷ [] }
    ∷ record { canonical = "k1"; members = "k1" ∷ "k2" ∷ "k1" ∷ [] }
    ∷ []

abbrev pair_cluster : Cluster
pair_cluster = record { cluster_id = "k1"; canonical = "k1"; members = "k1" ∷ "k2" ∷ [] }

kept :
    validated_clusters (λ k. k) ("k1" ∷ "k2" ∷ []) ("k1" ∷ "k2" ∷ "k3" ∷ []) proposals
    ≡ pair_cluster ∷ []
unfolding validated_clusters is_valid distinct
kept = refl

pair-IsGrouping :
    IsGrouping
      ("k1" ∷ "k2" ∷ [])
      ("k1" ∷ "k2" ∷ "k3" ∷ [])
      (record { canonical = "k1"; members = "k1" ∷ "k2" ∷ "k1" ∷ [] })
pair-IsGrouping = record {
  pair = ("k1", "k2", refl, refl, refl);
  canonical = refl;
  shown = (all_iff (member_of ("k1" ∷ "k2" ∷ [])) ("k1" ∷ "k2" ∷ "k1" ∷ [])).0 refl;
  indexed = (all_iff (member_of ("k1" ∷ "k2" ∷ "k3" ∷ [])) ("k1" ∷ "k2" ∷ "k1" ∷ [])).0 refl;
}

validated_clusters_iff_example :
    In pair_cluster
      (validated_clusters (λ k. k) ("k1" ∷ "k2" ∷ []) ("k1" ∷ "k2" ∷ "k3" ∷ []) proposals)
    ↔ Proposed (λ k. k) ("k1" ∷ "k2" ∷ []) ("k1" ∷ "k2" ∷ "k3" ∷ []) proposals pair_cluster
validated_clusters_iff_example =
    validated_clusters_iff (λ k. k) ("k1" ∷ "k2" ∷ []) ("k1" ∷ "k2" ∷ "k3" ∷ []) proposals
      pair_cluster
