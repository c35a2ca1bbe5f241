-- ===== src/Stages/Dedup/Clusters.antt =====
-- The clusters that survive the check of the agent's answer.
use dependabot_harness.Prelude.{
  ◌≡◌, ◌↔◌, refl, sym, ap, ap₂, subst, ◌∙◌, ◌⊎◌, inl, inr, Bool, true, false, String, List, [], ◌∷◌,
  arith, ◌≤◌, length, if◌then◌else◌, In, here, there,
}
use dependabot_harness.Stages.Dedup.{
  Cluster, Proposal, member_of, distinct, is_valid, validated_clusters,
}
use dependabot_harness.Stages.Dedup.Distinct.{
  IsDistinct, HasPair, member_of-distinct, distinct-IsDistinct, all_iff, pair_iff,
}

-- What makes a proposal safe to suppress the analysis of its members, in terms of what it names.
pub record IsGrouping (allowed known : List String) (p : Proposal) : Type 0 where
  pub pair : HasPair p.members
  pub canonical : member_of p.members p.canonical ≡ true
  pub shown : (k : String) → member_of p.members k ≡ true → member_of allowed k ≡ true
  pub indexed : (k : String) → member_of p.members k ≡ true → member_of known k ≡ true

-- The cluster of a proposal: the same members, each of them once.
pub record IsClusterOf (agent_id : String → String) (p : Proposal) (c : Cluster) : Type 0 where
  pub id : c.cluster_id ≡ agent_id p.canonical
  pub canonical : c.canonical ≡ p.canonical
  pub members : c.members ≡ distinct p.members
  pub once : IsDistinct c.members
  pub same : (k : String) → member_of c.members k ≡ member_of p.members k

abbrev cluster_of : (String → String) → Proposal → Cluster
cluster_of agent_id p = record {
  cluster_id = agent_id p.canonical;
  canonical = p.canonical;
  members = distinct p.members;
}

cluster_of-IsClusterOf :
    (agent_id : String → String) (p : Proposal) → IsClusterOf agent_id p (cluster_of agent_id p)
cluster_of-IsClusterOf agent_id p = record {
  id = refl;
  canonical = refl;
  members = refl;
  once = distinct-IsDistinct p.members;
  same = λ k. member_of-distinct k p.members;
}

is_cluster_of :
    (agent_id : String → String) (p : Proposal) (c : Cluster)
    → IsClusterOf agent_id p c
    → c ≡ cluster_of agent_id p
is_cluster_of agent_id p c i =
    ap₂
      (λ (id canonical : String). record {
        cluster_id = id;
        canonical = canonical;
        members = c.members;
      })
      i.id i.canonical
    ∙ ap
        (λ (ks : List String). record {
          cluster_id = agent_id p.canonical;
          canonical = p.canonical;
          members = ks;
        })
        i.members

distinct_pair : (ks : List String) → HasPair (distinct ks) ↔ HasPair ks
distinct_pair ks = (
  λ (a, b, m, n, apart).
      (a, b, sym (member_of-distinct a ks) ∙ m, sym (member_of-distinct b ks) ∙ n, apart),
  λ (a, b, m, n, apart). (a, b, member_of-distinct a ks ∙ m, member_of-distinct b ks ∙ n, apart),
)

is_valid_iff :
    (allowed known : List String) (p : Proposal)
    → (is_valid allowed known p ≡ true) ↔ IsGrouping allowed known p
unfolding is_valid
is_valid_iff allowed known p =
    let ks = distinct p.members in
    let named = λ (k : String). member_of-distinct k p.members in
    (
      λ h. record {
        pair =
            (distinct_pair p.members).0
              ((pair_iff ks (distinct-IsDistinct p.members)).0 (ground (arith, h)));
        canonical = sym (named p.canonical) ∙ ground (arith, h);
        shown = λ k m. (all_iff (member_of allowed) ks).0 (ground (arith, h)) k (named k ∙ m);
        indexed = λ k m. (all_iff (member_of known) ks).0 (ground (arith, h)) k (named k ∙ m);
      },
      λ g.
          let several : 2 ≤ length ks =
            (pair_iff ks (distinct-IsDistinct p.members)).1 ((distinct_pair p.members).1 g.pair) in
          let canonical : member_of ks p.canonical ≡ true = named p.canonical ∙ g.canonical in
          let shown = (all_iff (member_of allowed) ks).1 (λ k m. g.shown k (sym (named k) ∙ m)) in
          let indexed = (all_iff (member_of known) ks).1 (λ k m. g.indexed k (sym (named k) ∙ m)) in
          ground (arith, several, canonical, shown, indexed),
    )

-- A cluster of a proposal that the agent makes and that is safe.
abbrev pub Proposed :
    (String → String) → List String → List String → List Proposal → Cluster → Type 0
Proposed agent_id allowed known ps c =
    (p : Proposal) × In p ps × IsGrouping allowed known p × IsClusterOf agent_id p c

In-kept :
    {A : Type 0} (test : Bool) (x y : A) (rest : List A)
    → In x (if test then y ∷ rest else rest) ↔ (((test ≡ true) × (x ≡ y)) ⊎ In x rest)
In-kept false x y rest =
    (λ m. inr m, λ c. elim c [ inl (t, e) ↦ absurd (ground (arith, t)) | inr m ↦ m ])
In-kept true x y rest = (
  λ m. elim m [ here e ↦ inl (refl, e) | there later ↦ inr later ],
  λ c. elim c [ inl (t, e) ↦ here e | inr m ↦ there m ],
)

-- Whatever the agent answers, the clusters that are kept are those of exactly the proposals that
-- name two different members, with the canonical one among them, and only alerts that were shown to
-- the agent and are in the index. Each has its proposal's canonical member and the members that
-- the proposal names, each of them once.
pub validated_clusters_iff :
    (agent_id : String → String) (allowed known : List String) (ps : List Proposal) (c : Cluster)
    → In c (validated_clusters agent_id allowed known ps) ↔ Proposed agent_id allowed known ps c
unfolding validated_clusters
validated_clusters_iff agent_id allowed known [] c = (λ m. elim m [ ], λ (p, m, g, i). elim m [ ])
validated_clusters_iff agent_id allowed known (p ∷ ps) c =
    let rest = validated_clusters agent_id allowed known ps in
    let (into, out) = validated_clusters_iff agent_id allowed known ps c in
    let (split, join) = In-kept (is_valid allowed known p) c (cluster_of agent_id p) rest in
    (
      λ m. elim (split m) [
        | inl (valid, same) ↦ (
          p,
          here refl,
          (is_valid_iff allowed known p).0 valid,
          subst (IsClusterOf agent_id p) (sym same) (cluster_of-IsClusterOf agent_id p),
        )
        | inr later ↦ let (q, n, g, i) = into later in (q, there n, g, i)
      ],
      λ (q, m, g, i). elim m [
        | here same ↦ join (
            inl (
              (is_valid_iff allowed known p).1 (subst (IsGrouping allowed known) same g),
              subst (λ (x : Proposal). c ≡ cluster_of agent_id x) same
                  (is_cluster_of agent_id q c i),
            ))
        | there later ↦ join (inr (out (q, later, g, i)))
      ],
    )
