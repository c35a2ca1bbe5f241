-- ===== src/Tests/Sources.antt =====
-- The scan of a checkout and the choice of a fix at concrete manifests and advisories.
use dependabot_harness.Prelude.{
  ◌≡◌, refl, true, String, Option, some, List, [], ◌∷◌, map, codes, Result, ok, here,
}
use dependabot_harness.Version.{Version}
use dependabot_harness.Version.Parse.{try_parse}
use dependabot_harness.Ecosystem.Manifest.{Dependency, is_pinned}
use dependabot_harness.Sources.Scan.{
  RepoFile, DiscoveredDependency, Answer, results, coverage_complete, scan,
}
use dependabot_harness.Sources.Scan.Coverage.{IsChecked, scan-IsChecked}
use dependabot_harness.Sources.Patched.{Event, Affected, patched_version}
use dependabot_harness.Sources.Patched.Above.{Describes, patched_version-Describes}

abbrev pinned_dependency : Dependency
pinned_dependency = record {
  name = codes "example.com/lib";
  version = codes "v1.2.0";
  scope = "runtime";
  is_direct = some true;
}

pinned : is_pinned pinned_dependency ≡ true
unfolding is_pinned
pinned = refl

abbrev go_mod : RepoFile
go_mod = record {
  name = codes "go.mod";
  path = codes "app/go.mod";
  size = ok 120;
  dependencies = ok (pinned_dependency ∷ record pinned_dependency { version = codes "1.x" } ∷ []);
}

abbrev answer : List DiscoveredDependency → Answer
answer chunk = results (map (λ item. "GHSA-1" ∷ []) chunk)

abbrev fetched : String → Result String (Option String)
fetched id = ok (some id)

scan-IsChecked_example : IsChecked answer (codes "go") go_mod
unfolding coverage_complete scan dependabot_harness.Sources.Scan.scan_found
    dependabot_harness.Sources.Scan.discover dependabot_harness.Sources.Scan.manifest_ecosystem
    dependabot_harness.Sources.Scan.read_manifest dependabot_harness.Ecosystem.get_adapter
    dependabot_harness.Sources.Scan.take_pinned is_pinned dependabot_harness.Sources.Scan.alerts_of
    dependabot_harness.Sources.Scan.query dependabot_harness.Sources.Scan.query_all
    dependabot_harness.Sources.Scan.batches dependabot_harness.Sources.Scan.settle
    dependabot_harness.Sources.Scan.matches dependabot_harness.Sources.Scan.fetch_all
scan-IsChecked_example =
    scan-IsChecked answer fetched (go_mod ∷ []) go_mod (codes "go") refl (here refl) refl

abbrev fixed_in : String → String → Event
fixed_in from to = record { introduced = some (codes from); fixed = some (codes to) }

abbrev two_branches : List Affected
two_branches =
    record {
      package_name = some (codes "lib");
      ranges = (fixed_in "1.0.0" "1.9.0" ∷ fixed_in "2.0.0" "2.3.0" ∷ []) ∷ [];
    }
    ∷ []

abbrev release_of : Version
release_of = record { release = 2 ∷ 1 ∷ 0 ∷ []; prerelease = []; raw = codes "2.1.0" }

-- The fix of the branch that the version is on, not the first that is listed.
second_branch : patched_version two_branches (codes "lib") (codes "2.1.0") ≡ some (codes "2.3.0")
unfolding patched_version dependabot_harness.Sources.Patched.search_affected
    dependabot_harness.Sources.Patched.search_ranges
    dependabot_harness.Sources.Patched.search_events dependabot_harness.Sources.Patched.fix_of
    try_parse dependabot_harness.Version.le_version dependabot_harness.Version.lt_version
    dependabot_harness.Version.key
second_branch = refl

patched_version-Describes_example :
    Describes two_branches
      (codes "lib")
      release_of
      (patched_version two_branches (codes "lib") (codes "2.1.0"))
unfolding try_parse
patched_version-Describes_example =
    patched_version-Describes two_branches (codes "lib") (codes "2.1.0") release_of refl
