-- ===== src/Sources/Scan/Manifests.antt =====
-- What it takes for no manifest of a scan to go unchecked.
use dependabot_harness.Prelude.{
  ◌≡◌, refl, sym, ap, subst, ◌∙◌, ◌⊎◌, inl, inr, true, some, List, [], ◌∷◌, ◌++◌, Text, length,
  length-append, ltb, In, here, there, arith, Bool-cases, Option-cases, ok, Result-cases, is_some,
  if◌then◌else◌,
}
use dependabot_harness.Ecosystem.{get_adapter}
use dependabot_harness.Ecosystem.Manifest.{Dependency, is_pinned}
use dependabot_harness.Sources.Scan.{
  RepoFile, Gap, no_adapter, cannot_stat, too_large, not_read, with_gap, count_manifest,
  DiscoveredDependency, Discovery, ScanStats, coverage_complete, max_manifest_bytes,
  manifest_ecosystem, discovered, take_pinned, read_manifest, discover,
}

-- Nothing has gone unchecked so far.
pub record IsQuiet (s : ScanStats) : Type 0 where
  pub asked : s.unqueried ≡ 0
  pub unfailing : length s.errors ≡ 0

pub coverage_complete-IsQuiet : (s : ScanStats) → coverage_complete s ≡ true → IsQuiet s
unfolding coverage_complete
coverage_complete-IsQuiet s h = record { asked = ground (arith, h); unfailing = ground (arith, h) }

In-snoc : {A : Type 0} (x y : A) (xs : List A) → (x ≡ y) ⊎ In x xs → In x (xs ++ y ∷ [])
In-snoc x y [] (inl same) = here same
In-snoc x y [] (inr m) = elim m [ ]
In-snoc x y (z ∷ xs) (inl same) = there (In-snoc x y xs (inl same))
In-snoc x y (z ∷ xs) (inr (here same)) = here same
In-snoc x y (z ∷ xs) (inr (there later)) = there (In-snoc x y xs (inr later))

pub loud : (s : ScanStats) (gap : Gap) → IsQuiet (with_gap gap s) → ⊥
loud s gap q = omega (arith, length-append s.errors (gap ∷ []), q.unfailing)

module _ (ecosystem : Text) (file : RepoFile) where
  take_pinned-keeps :
      (deps : List Dependency) (d : Discovery)
      → ((take_pinned ecosystem file deps d).1.errors ≡ d.1.errors)
        × ((take_pinned ecosystem file deps d).1.unqueried ≡ d.1.unqueried)
        × ((x : DiscoveredDependency) → In x d.0 → In x (take_pinned ecosystem file deps d).0)
  unfolding take_pinned
  take_pinned-keeps [] d = (refl, refl, λ x m. m)
  take_pinned-keeps (dep ∷ deps) (found, s) =
      let one = discovered ecosystem file dep in
      let (e, u, keep) = take_pinned-keeps deps (
        if is_pinned dep then found ++ one ∷ [] else found,
        record s { dependencies = _; unpinned_skipped = _ },
      ) in
      (
        e,
        u,
        λ x m. keep x (elim (Bool-cases (is_pinned dep)) [
          | inl pinned ↦ rw pinned (In-snoc x one found (inr m))
          | inr loose ↦ rw loose m
        ]),
      )

  take_pinned-In :
      (deps : List Dependency) (d : Discovery) (dep : Dependency)
      → In dep deps
      → is_pinned dep ≡ true
      → In (discovered ecosystem file dep) (take_pinned ecosystem file deps d).0
  unfolding take_pinned
  take_pinned-In [] d dep m pinned = elim m [ ]
  take_pinned-In (x ∷ deps) (found, s) dep (here same) pinned =
      let exact : is_pinned x ≡ true = subst (λ y. is_pinned y ≡ true) same pinned in
      (take_pinned-keeps deps _).2 (discovered ecosystem file dep) (
        rw exact (
          In-snoc (discovered ecosystem file dep) (discovered ecosystem file x) found
            (inl (ap (discovered ecosystem file) same))))
  take_pinned-In (x ∷ deps) (found, s) dep (there later) pinned =
      take_pinned-In deps _ dep later pinned

  -- The manifest was read, and what it pins is in the list.
  pub record IsRead (found : List DiscoveredDependency) : Type 0 where
    pub dependencies : List Dependency
    pub parsed : file.dependencies ≡ ok dependencies
    pub listed :
        (dep : Dependency)
        → In dep dependencies
        → is_pinned dep ≡ true
        → In (discovered ecosystem file dep) found

  -- A gap is recorded, or the dependencies are taken.
  read_manifest-cases :
      (found : List DiscoveredDependency) (s : ScanStats)
      → ((gap : Gap) × (read_manifest ecosystem file (found, s) ≡ (found, with_gap gap s)))
        ⊎ ((deps : List Dependency) × (file.dependencies ≡ ok deps)
            × (read_manifest ecosystem file (found, s)
                ≡ take_pinned ecosystem file deps (found, count_manifest s)))
  unfolding read_manifest
  read_manifest-cases found s = elim (Bool-cases (is_some (get_adapter ecosystem))) [
    | inr missing ↦ inl (no_adapter file.path, rw (read_manifest, missing) refl)
    | inl known ↦ elim (Result-cases file.size) [
      | inr (e, threw) ↦ inl (cannot_stat file.path, rw (read_manifest, known, threw) refl)
      | inl (size, sized) ↦ elim (Bool-cases (ltb max_manifest_bytes size)) [
        | inl large ↦ inl (too_large file.path, rw (read_manifest, known, sized, large) refl)
        | inr small ↦ elim (Result-cases file.dependencies) [
          | inr (e, threw) ↦
              inl (not_read file.path, rw (read_manifest, known, sized, small, threw) refl)
          | inl (deps, parsed) ↦ inr (deps, parsed, ground (arith, known, sized, small, parsed))
        ]
      ]
    ]
  ]

  read_manifest-IsRead :
      (d : Discovery)
      → IsQuiet (read_manifest ecosystem file d).1
      → IsQuiet d.1
        × IsRead (read_manifest ecosystem file d).0
        × ((x : DiscoveredDependency) → In x d.0 → In x (read_manifest ecosystem file d).0)
  read_manifest-IsRead (found, s) q = elim (read_manifest-cases found s) [
    | inl (gap, e) ↦ absurd (loud s gap (subst (λ d. IsQuiet d.1) e q))
    | inr (deps, parsed, e) ↦
        let (errors, unqueried, keep) = take_pinned-keeps deps (found, count_manifest s) in
        let after = subst (λ d. IsQuiet d.1) e q in
        (
          record {
            asked = sym unqueried ∙ after.asked;
            unfailing = ap length (sym errors) ∙ after.unfailing;
          },
          record {
            dependencies = deps;
            parsed = parsed;
            listed = λ dep m pinned.
                subst (λ d. In (discovered ecosystem file dep) d.0) (sym e)
                  (take_pinned-In deps (found, count_manifest s) dep m pinned);
          },
          λ x m. subst (λ d. In x d.0) (sym e) (keep x m),
        )
  ]

IsRead-more :
    (ecosystem : Text) (file : RepoFile) (xs ys : List DiscoveredDependency)
    → ((x : DiscoveredDependency) → In x xs → In x ys)
    → IsRead ecosystem file xs
    → IsRead ecosystem file ys
IsRead-more ecosystem file xs ys more r = record {
  dependencies = r.dependencies;
  parsed = r.parsed;
  listed = λ dep m pinned. more (discovered ecosystem file dep) (r.listed dep m pinned);
}

discover-keeps :
    (files : List RepoFile) (d : Discovery)
    → IsQuiet (discover files d).1
    → IsQuiet d.1 × ((x : DiscoveredDependency) → In x d.0 → In x (discover files d).0)
unfolding discover
discover-keeps [] d q = (q, λ x m. m)
discover-keeps (file ∷ files) d q = elim (Option-cases (manifest_ecosystem file.name)) [
  | inl none_known ↦
      rw (discover, none_known) (discover-keeps files d (rw (discover, none_known) at q))
  | inr (ecosystem, known) ↦
      let (before, keep) =
        discover-keeps files (read_manifest ecosystem file d) (rw (discover, known) at q) in
      let (start, r, old) = read_manifest-IsRead ecosystem file d before in
      rw (discover, known) (start, λ x m. keep x (old x m))
]

pub discover-IsRead :
    (files : List RepoFile) (d : Discovery) (file : RepoFile) (ecosystem : Text)
    → IsQuiet (discover files d).1
    → In file files
    → manifest_ecosystem file.name ≡ some ecosystem
    → IsRead ecosystem file (discover files d).0
unfolding discover
discover-IsRead [] d file ecosystem q m known = elim m [ ]
discover-IsRead (x ∷ files) d file ecosystem q (here same) known =
    let mine : manifest_ecosystem x.name ≡ some ecosystem =
      subst (λ (f : RepoFile). manifest_ecosystem f.name ≡ some ecosystem) same known in
    let (before, keep) =
      discover-keeps files (read_manifest ecosystem x d) (rw (discover, mine) at q) in
    let (start, r, old) = read_manifest-IsRead ecosystem x d before in
    rw (discover, mine)
      (subst (λ f. IsRead ecosystem f (discover files (read_manifest ecosystem x d)).0) (sym same)
        (IsRead-more ecosystem x _ _ keep r))
discover-IsRead (x ∷ files) d file ecosystem q (there later) known =
    elim (Option-cases (manifest_ecosystem x.name)) [
      | inl none_known ↦
          rw (discover, none_known)
            (discover-IsRead files d file ecosystem (rw (discover, none_known) at q) later known)
      | inr (other, found) ↦
          rw (discover, found)
            (discover-IsRead files (read_manifest other x d) file ecosystem
              (rw (discover, found) at q) later known)
    ]
