-- ===== src/Policy/Facts.antt =====
-- `RepoFactsProvider` of harness/policy/facts.py: the answers that do not read a checkout's files.
-- The rows of the alerts table are given in the order of the query.
pub mod Highest
use Prim.Native.Nat.{compare, Ordering}
use dependabot_harness.Prelude.{
  ℕ, ◌≡◌, refl, sym, ap, subst, ◌∙◌, ◌≢◌, ◌⊎◌, inl, inr, Bool, true, false, not, ◌&&◌, ◌||◌, String,
  Option, none, some, List, [], ◌∷◌, Text, codes, ◌==◌, string_eq, text_eq, In, here, there, arith,
  if◌then◌else◌, eq_iff, text_beq_iff, ◌↔◌, Option-cases, Bool-cases,
}
use dependabot_harness.Prelude.Order.{compare_list}
use dependabot_harness.Alert.{AlertRecord, State, open_state}
use dependabot_harness.Version.{Version, gt_version, lt_version, eq_version, ge_version}
use dependabot_harness.Version.Parse.{try_parse}
use dependabot_harness.Version.Order.{ge_trans, ge_total, ge_refl, eq-ge, gt-eq-not-ge}
use dependabot_harness.Policy.Context.{SupersedingFix}

abbrev is_open : State → Bool
is_open open_state = true
is_open _ = false

-- The WHERE clause: another open advisory for the same package, repository and manifest.
unfoldable pub sibling : AlertRecord → AlertRecord → Bool
sibling alert row =
    (row.repo == alert.repo && row.purl == alert.purl)
    && ((row.manifest_path == alert.manifest_path && not (row.ghsa_id == alert.ghsa_id))
        && is_open row.state)

-- A triple `(parsed, ghsa_id, patched_ver)`.
pub record Candidate : Type 0 where
  pub version : Version
  pub ghsa_id : String
  pub patched : Option Text

-- The list comprehension: the siblings whose patch parses, above this alert's own.
unfoldable pub candidate_of : AlertRecord → Version → AlertRecord → Option Candidate
unfolding sibling
candidate_of alert mine row =
    if sibling alert row
    then elim (try_parse row.patched_ver) [
      | none ↦ none
      | some parsed ↦
          if gt_version parsed mine
          then some (record { version = parsed; ghsa_id = row.ghsa_id; patched = row.patched_ver })
          else none
    ]
    else none

unfoldable pub candidates : AlertRecord → Version → List AlertRecord → List Candidate
unfolding candidate_of
candidates alert mine [] = []
candidates alert mine (row ∷ rows) =
    let rest = candidates alert mine rows in
    elim (candidate_of alert mine row) [ none ↦ rest | some c ↦ c ∷ rest ]

-- Python's `>` on the pair `(version, ghsa_id)`: by the id only where the versions are equal.
unfoldable pub above : Candidate → Candidate → Bool
above a b =
    if eq_version a.version b.version
    then elim (compare_list compare (codes a.ghsa_id) (codes b.ghsa_id)) [
      | Ordering.gt ↦ true
      | _ ↦ false
    ]
    else gt_version a.version b.version

unfoldable pub better : Candidate → Candidate → Candidate
unfolding above
better c best = if above c best then c else best

-- `max(candidates, key=...)`: the first of the greatest.
unfoldable pub greatest : Candidate → List Candidate → Candidate
unfolding better
greatest best [] = best
greatest best (c ∷ cs) = greatest (better c best) cs

-- `str(patched) if patched else None`
unfoldable pub patch_text : Option Text → Option Text
patch_text none = none
patch_text (some []) = none
patch_text (some (c ∷ s)) = some (c ∷ s)

unfoldable pub choose : List Candidate → Option SupersedingFix
unfolding greatest patch_text
choose [] = none
choose (c ∷ cs) =
    let best = greatest c cs in
    some (record { ghsa_id = best.ghsa_id; patched_version = patch_text best.patched })

unfoldable pub superseding_fix_for : List AlertRecord → AlertRecord → Option SupersedingFix
unfolding choose candidates
superseding_fix_for rows alert = elim (try_parse alert.patched_ver) [
  | none ↦ none
  | some mine ↦ choose (candidates alert mine rows)
]
