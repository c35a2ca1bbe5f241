-- ===== src/Dedup/Trivial/Members.antt =====
-- Which alerts a trivial cluster holds.
use dependabot_harness.Prelude.{
  ◌≤◌, ◌≡◌, refl, sym, ap, subst, ◌⊎◌, inl, inr, true, String, Text, Option, none, some, List, [],
  ◌∷◌, ◌++◌, length, string_eq, text_eq, text_beq_iff, eq_iff, beq_refl, arith, Bool-cases, In,
  here, there, or_default,
}
use dependabot_harness.Prelude.Sort.{sorted, In-sorted}
use dependabot_harness.Alert.{AlertRecord}
use dependabot_harness.Stages.Dedup.{Cluster}
use dependabot_harness.Dedup.{InvertedIndex, Packages, package_of, same_package, append_at}
use dependabot_harness.Dedup.Trivial.{
  Group, group_of, same_group, groups_from, key_before, group_before, ranks_below, pick_canonical,
  cluster_of, cons_some, clusters_of, trivial_clusters,
}

-- The key is that of an alert in the group.
abbrev pub IsIn : List (String × AlertRecord) → Group → String → Type 0
IsIn alerts group key =
    (alert : AlertRecord) × In (key, alert) alerts × (same_group group (group_of alert) ≡ true)

abbrev AllIn : List (String × AlertRecord) → List (Group × List String) → Type 0
AllIn alerts [] = Unit
AllIn alerts ((group, keys) ∷ groups) =
    ((k : String) → In k keys → IsIn alerts group k) × AllIn alerts groups

AllIn-In :
    (alerts : List (String × AlertRecord)) (groups : List (Group × List String)) (group : Group)
    (keys : List String)
    → AllIn alerts groups
    → In (group, keys) groups
    → (k : String) → In k keys
    → IsIn alerts group k
AllIn-In alerts [] group keys all m = elim m [ ]
AllIn-In alerts ((g, ks) ∷ groups) group keys (first, rest) m = elim m [
  | here same ↦ λ k l.
      subst (λ (x : Group). IsIn alerts x k) (sym (ap (λ p. p.0) same))
        (first k (subst (In k) (ap (λ p. p.1) same) l))
  | there later ↦ AllIn-In alerts groups group keys rest later
]

In-append : {A : Type 0} (c : A) (xs ys : List A) → In c (xs ++ ys) → In c xs ⊎ In c ys
In-append c [] ys m = inr m
In-append c (x ∷ xs) ys (here e) = inl (here e)
In-append c (x ∷ xs) ys (there m) = elim (In-append c xs ys m) [
  | inl l ↦ inl (there l)
  | inr r ↦ inr r
]

In-single : {A : Type 0} (c x : A) → In c (x ∷ []) → c ≡ x
In-single c x (here e) = e
In-single c x (there m) = elim m [ ]

same_group_refl : (g : Group) → same_group g g ≡ true
unfolding same_group
same_group_refl (g, ((p, none), v)) = ground (arith, beq_refl g, beq_refl p, beq_refl v)
same_group_refl (g, ((p, some n), v)) = ground (arith, beq_refl g, beq_refl p, beq_refl v)

module _ (alerts : List (String × AlertRecord)) (key : String) (alert : AlertRecord)
    (listed : In (key, alert) alerts) where
  grown :
      (other : Group) (keys : List String)
      → same_group other (group_of alert) ≡ true
      → ((k : String) → In k keys → IsIn alerts other k)
      → (k : String) → In k (keys ++ key ∷ [])
      → IsIn alerts other k
  grown other keys same old k m = elim (In-append k keys (key ∷ []) m) [
    | inl l ↦ old k l
    | inr new ↦ subst (IsIn alerts other) (sym (In-single k key new)) (alert, listed, same)
  ]

  append_at-AllIn :
      (groups : List (Group × List String))
      → AllIn alerts groups
      → AllIn alerts (append_at same_group (group_of alert) key groups)
  unfolding append_at
  append_at-AllIn [] all =
      (grown (group_of alert) [] (same_group_refl (group_of alert)) (λ k m. elim m [ ]), tt)
  append_at-AllIn ((other, old) ∷ groups) (first, rest) =
      elim (Bool-cases (same_group other (group_of alert))) [
        | inl same ↦ rw (append_at, same) (grown other old same first, rest)
        | inr apart ↦ rw (append_at, apart) (first, append_at-AllIn groups rest)
      ]

groups_from-AllIn :
    (all : List (String × AlertRecord)) (alerts : List (String × AlertRecord))
    (groups : List (Group × List String))
    → ((key : String) (alert : AlertRecord) → In (key, alert) alerts → In (key, alert) all)
    → AllIn all groups
    → AllIn all (groups_from groups alerts)
unfolding groups_from
groups_from-AllIn all [] groups within holds = holds
groups_from-AllIn all ((key, alert) ∷ alerts) groups within holds =
    groups_from-AllIn all alerts _ (λ k a m. within k a (there m))
      (append_at-AllIn all key alert (within key alert (here refl)) groups holds)

pick_canonical-In :
    (index : InvertedIndex) (best : String) (ms : List String)
    → In (pick_canonical index best ms) (best ∷ ms)
unfolding pick_canonical
pick_canonical-In index best [] = here refl
pick_canonical-In index best (m ∷ ms) = elim (Bool-cases (ranks_below index m best)) [
  | inl lower ↦ rw (pick_canonical, lower) (there (pick_canonical-In index m ms))
  | inr kept ↦
      rw (pick_canonical, kept)
        (elim (pick_canonical-In index best ms) [
          | here same ↦ here same
          | there l ↦ there (there l)
        ])
]

-- An alert with this key that the upgrade of a package to a target closes.
pub record IsClosedBy (alerts : List (String × AlertRecord)) (advisory : String)
    (versioned : Packages) (target : Text) (key : String) : Type 0 where
  pub alert : AlertRecord
  pub listed : In (key, alert) alerts
  pub named : alert.ghsa_id ≡ advisory
  pub same_line : same_package versioned (package_of alert) ≡ true
  pub fixed_by : or_default alert.patched_ver [] ≡ target

-- A cluster whose members one upgrade closes.
pub record IsTrivial (index : InvertedIndex) (c : Cluster) : Type 0 where
  pub several : 2 ≤ length c.members
  pub canonical : In c.canonical c.members
  pub advisory : String
  pub versioned : Packages
  pub target : Text
  pub together :
      (key : String) → In key c.members → IsClosedBy index.alerts advisory versioned target key

closed_by :
    (alerts : List (String × AlertRecord)) (advisory : String) (versioned : Packages)
    (target : Text) (key : String)
    → IsIn alerts (advisory, (versioned, target)) key
    → IsClosedBy alerts advisory versioned target key
unfolding same_group
closed_by alerts advisory versioned target key (alert, listed, same) = record {
  alert = alert;
  listed = listed;
  named = sym ((eq_iff advisory alert.ghsa_id).0 (ground (arith, same)));
  same_line = ground (arith, same);
  fixed_by = sym ((text_beq_iff target (or_default alert.patched_ver [])).0 (ground (arith, same)));
}

cluster_of-IsTrivial :
    (name : Group → String) (index : InvertedIndex) (group : Group) (keys : List String)
    (c : Cluster)
    → ((key : String) → In key keys → IsIn index.alerts group key)
    → cluster_of name index group keys ≡ some c
    → IsTrivial index c
unfolding cluster_of
cluster_of-IsTrivial name index group [] c all h = cc
cluster_of-IsTrivial name index group (m ∷ []) c all h = cc
cluster_of-IsTrivial name index (advisory, (versioned, target)) (m ∷ n ∷ ms) c all h =
    let made : Cluster = record {
      cluster_id = name (advisory, (versioned, target));
      canonical = pick_canonical index m (n ∷ ms);
      members = m ∷ n ∷ ms;
    } in
    let trivial : IsTrivial index made = record {
      several = omega arith;
      canonical = pick_canonical-In index m (n ∷ ms);
      advisory = advisory;
      versioned = versioned;
      target = target;
      together = λ key l. closed_by index.alerts advisory versioned target key (all key l);
    } in
    subst (IsTrivial index) (ap (λ o. or_default o made) h) trivial

In-cons_some :
    (c : Cluster) (o : Option Cluster) (cs : List Cluster)
    → In c (cons_some o cs)
    → (o ≡ some c) ⊎ In c cs
unfolding cons_some
In-cons_some c none cs m = inr m
In-cons_some c (some made) cs (here same) = inl (ap some (sym same))
In-cons_some c (some made) cs (there later) = inr later

clusters_of-IsTrivial :
    (name : Group → String) (index : InvertedIndex) (groups : List (Group × List String))
    (c : Cluster)
    → ((group : Group) (keys : List String)
        → In (group, keys) groups
        → (key : String) → In key keys
        → IsIn index.alerts group key)
    → In c (clusters_of name index groups)
    → IsTrivial index c
unfolding clusters_of
clusters_of-IsTrivial name index [] c all m = elim m [ ]
clusters_of-IsTrivial name index ((group, keys) ∷ groups) c all m =
    elim (In-cons_some c (cluster_of name index group (sorted key_before keys))
      (clusters_of name index groups) m) [
        | inl found ↦
            cluster_of-IsTrivial name index group (sorted key_before keys) c
              (λ key l. all group keys (here refl) key (In-sorted key_before key keys l)) found
        | inr later ↦ clusters_of-IsTrivial name index groups c (λ g ks i. all g ks (there i)) later
      ]

-- A cluster that no model is asked about has at least two members, its canonical member among them,
-- and each member is an alert of the index with the cluster's advisory, package, major version and
-- target version.
pub trivial_clusters-IsTrivial :
    (name : Group → String) (index : InvertedIndex) (c : Cluster)
    → In c (trivial_clusters name index)
    → IsTrivial index c
unfolding trivial_clusters
trivial_clusters-IsTrivial name index c m =
    let groups = groups_from [] index.alerts in
    clusters_of-IsTrivial name index (sorted group_before groups) c
      (λ group keys i.
        AllIn-In index.alerts groups group keys
          (groups_from-AllIn index.alerts index.alerts [] (λ k a l. l) tt)
          (In-sorted group_before (group, keys) groups i))
      m
