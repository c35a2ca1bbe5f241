-- ===== src/Tests/Versions.antt =====
-- Versions: comparisons at concrete strings.
use dependabot_harness.Prelude.{ℕ, ◌≡◌, true, List, [], ◌∷◌}
use dependabot_harness.Version.{Version, eq_version}
use dependabot_harness.Version.Order.{eq_version_past_four}

abbrev release_of : List ℕ → Version
release_of ns = record { release = ns; prerelease = []; raw = [] }

abbrev one_two : Version
one_two = release_of (1 ∷ 2 ∷ [])

abbrev one_ten : Version
one_ten = release_of (1 ∷ 10 ∷ [])

abbrev two : Version
two = release_of (2 ∷ [])

eq_version_past_four_example :
    eq_version (release_of (1 ∷ 2 ∷ 3 ∷ 4 ∷ 5 ∷ [])) (release_of (1 ∷ 2 ∷ 3 ∷ 4 ∷ 6 ∷ [])) ≡ true
eq_version_past_four_example = eq_version_past_four 1 2 3 4 (5 ∷ []) (6 ∷ []) [] [] []
