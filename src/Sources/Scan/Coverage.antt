-- ===== src/Sources/Scan/Coverage.antt =====
-- What it takes for a scan to call its coverage complete.
use dependabot_harness.Prelude.{
  ◌≡◌, refl, sym, subst, inl, inr, true, String, Option, none, some, List, [], ◌∷◌, Text, length,
  length-append, In, here, there, arith, Bool-cases, Result, ok, Result-cases, nat_beq, nat_beq_iff,
}
use dependabot_harness.Ecosystem.Manifest.{Dependency, is_pinned}
use dependabot_harness.Sources.Scan.{
  RepoFile, batch_failed, advisory_failed, with_gap, DiscoveredDependency, Discovery, ScanStats,
  Answer, raised, status, results, Match, fresh_stats, coverage_complete, manifest_ecosystem,
  discovered, discover, batches, batch_size, settle, query_all, query, fetch_all, alerts_of,
  scan_found, scan,
}
use dependabot_harness.Sources.Scan.Batches.{In-batches}
use dependabot_harness.Sources.Scan.Manifests.{
  IsQuiet, coverage_complete-IsQuiet, loud, discover-IsRead,
}

settle-keeps :
    (a : Answer) (chunk : List DiscoveredDependency) (d : List Match × ScanStats)
    → IsQuiet (settle a chunk d).1
    → IsQuiet d.1
      × (answers : List (List String)) × (a ≡ results answers)
      × (length answers ≡ length chunk)
unfolding settle
settle-keeps (raised e) chunk (out, s) q =
    absurd (omega (arith, length-append s.errors (batch_failed (length chunk) ∷ []), q.unfailing))
settle-keeps (status code) chunk (out, s) q =
    absurd (omega (arith, length-append s.errors (batch_failed (length chunk) ∷ []), q.unfailing))
settle-keeps (results answers) chunk (out, s) q =
    elim (Bool-cases (nat_beq (length answers) (length chunk))) [
      | inl same ↦
          let after : IsQuiet (settle (results answers) chunk (out, s)).1 = q in
          (
            record {
              asked = ground (arith, same, q.asked);
              unfailing = ground (arith, same, q.unfailing);
            },
            answers,
            refl,
            (nat_beq_iff (length answers) (length chunk)).0 same,
          )
      | inr differ ↦ absurd (
          ground
            (arith, differ, length-append s.errors (batch_failed (length chunk) ∷ []), q.unfailing))
    ]

-- OSV answered for the batch, one result for each query.
abbrev pub IsAnswered : (List DiscoveredDependency → Answer) → List DiscoveredDependency → Type 0
IsAnswered post chunk =
    (answers : List (List String)) × (post chunk ≡ results answers)
    × (length answers ≡ length chunk)

query_all-keeps :
    (post : List DiscoveredDependency → Answer) (chunks : List (List DiscoveredDependency))
    (d : List Match × ScanStats)
    → IsQuiet (query_all post chunks d).1
    → IsQuiet d.1 × ((chunk : List DiscoveredDependency) → In chunk chunks → IsAnswered post chunk)
unfolding query_all
query_all-keeps post [] d q = (q, λ chunk m. elim m [ ])
query_all-keeps post (c ∷ chunks) d q =
    let (before, answered) = query_all-keeps post chunks (settle (post c) c d) q in
    let mine = settle-keeps (post c) c d before in
    (
      mine.0,
      λ chunk m. elim m [
        | here same ↦ subst (IsAnswered post) (sym same) (mine.1, mine.2, mine.3)
        | there later ↦ answered chunk later
      ],
    )

fetch_all-keeps :
    (fetch : String → Result String (Option String)) (item : DiscoveredDependency)
    (ids : List String) (d : List (DiscoveredDependency × String) × ScanStats)
    → IsQuiet (fetch_all fetch item ids d).1
    → IsQuiet d.1
unfolding fetch_all
fetch_all-keeps fetch item [] d q = q
fetch_all-keeps fetch item (id ∷ ids) (out, s) q = elim (Result-cases (fetch id)) [
  | inr (e, threw) ↦ absurd (
      loud s (advisory_failed id) (
        fetch_all-keeps fetch item ids (out, with_gap (advisory_failed id) s)
          (rw (fetch_all, threw) at q)))
  | inl (none, nothing) ↦ fetch_all-keeps fetch item ids (out, s) (rw (fetch_all, nothing) at q)
  | inl (some advisory, found) ↦
      let before = fetch_all-keeps fetch item ids _ (rw (fetch_all, found) at q) in
      record { asked = before.asked; unfailing = before.unfailing }
]

alerts_of-keeps :
    (fetch : String → Result String (Option String)) (found : List Match)
    (d : List (DiscoveredDependency × String) × ScanStats)
    → IsQuiet (alerts_of fetch found d).1
    → IsQuiet d.1
unfolding alerts_of
alerts_of-keeps fetch [] d q = q
alerts_of-keeps fetch ((item, ids) ∷ rest) d q =
    fetch_all-keeps fetch item ids d (alerts_of-keeps fetch rest (fetch_all fetch item ids d) q)

-- A manifest that was read whole, and each dependency that it pins stands in a batch that OSV answered.
pub record IsChecked (post : List DiscoveredDependency → Answer) (ecosystem : Text)
    (file : RepoFile) : Type 0 where
  pub dependencies : List Dependency
  pub parsed : file.dependencies ≡ ok dependencies
  pub asked :
      (dep : Dependency)
      → In dep dependencies
      → is_pinned dep ≡ true
      → (chunk : List DiscoveredDependency) × In (discovered ecosystem file dep) chunk
        × IsAnswered post chunk

module _ (post : List DiscoveredDependency → Answer)
    (fetch : String → Result String (Option String)) (files : List RepoFile) where
  -- What is left of a quiet scan's first two parts.
  scan_found-keeps :
      (d : Discovery)
      → IsQuiet (scan_found post fetch d).1
      → IsQuiet d.1
        × ((x : DiscoveredDependency)
            → In x d.0
            → (chunk : List DiscoveredDependency) × In x chunk × IsAnswered post chunk)
  unfolding scan_found query
  scan_found-keeps ([], s) q = (q, λ x m. elim m [ ])
  scan_found-keeps (item ∷ items, s) q =
      let found = item ∷ items in
      let (start, answered) =
        query_all-keeps post (batches (length found) batch_size found) ([], s)
          (alerts_of-keeps fetch (query post found s).0 ([], (query post found s).1) q) in
      (
        start,
        λ x m.
            let (chunk, listed, inside) =
              In-batches (length found) batch_size found x (omega arith) (omega arith) m in
            (chunk, inside, answered chunk listed),
      )

  -- A scan that calls its coverage complete has read every recognised manifest of the checkout whole,
  -- and OSV has answered for a batch with each dependency that a manifest pins.
  pub scan-IsChecked :
      (file : RepoFile) (ecosystem : Text)
      → coverage_complete (scan post fetch files).1 ≡ true
      → In file files
      → manifest_ecosystem file.name ≡ some ecosystem
      → IsChecked post ecosystem file
  unfolding scan
  scan-IsChecked file ecosystem complete m known =
      let (quiet, asked) =
        scan_found-keeps (discover files ([], fresh_stats))
          (coverage_complete-IsQuiet (scan post fetch files).1 complete) in
      let r = discover-IsRead files ([], fresh_stats) file ecosystem quiet m known in
      record {
        dependencies = r.dependencies;
        parsed = r.parsed;
        asked = λ dep l pinned. asked (discovered ecosystem file dep) (r.listed dep l pinned);
      }
