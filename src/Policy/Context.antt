-- ===== src/Policy/Context.antt =====
-- harness/policy/context.py, with `ImportIndex` and the scanners' registry of
-- harness/analysis/imports.py. Reading the files of a checkout is outside: `RepoFacts` gives its
-- results.
use dependabot_harness.Prelude.{
  ℕ, Bool, true, false, not, ◌||◌, String, Option, none, some, List, [], ◌∷◌, ◌++◌, map, Text,
  codes, nat_beq, any, contains, text_eq, if◌then◌else◌,
}
use dependabot_harness.Alert.{AlertRecord, Score}
use dependabot_harness.Verdict.{VerdictName, VexStatus, Justification}
use dependabot_harness.Version.Parse.{lower}
use dependabot_harness.Ecosystem.{get, resolve_alias}
use dependabot_harness.Util.{starts_with}

pub record SupersedingFix : Type 0 where
  pub ghsa_id : String
  pub patched_version : Option Text

pub data OutcomeKind : Type 0 where
  verdict escalate skip_analysis dedup : OutcomeKind

-- `RuleOutcome.detail`, a `dict` with one shape for each rule.
pub data Detail : Type 0 where
  versions : Option Text → Option Text → Detail
  superseded_by : String → Option Text → Detail
  kev : Option Score → Detail
  scope_conclusive : Option String → Detail
  build_targets_checked : ℕ → Detail
  absent_package : Text → ℕ → ℕ → Detail

pub record RuleOutcome : Type 0 where
  pub rule_id : String
  pub kind : OutcomeKind
  pub reason : String
  pub verdict : Option VerdictName
  pub vex_status : Option VexStatus
  pub vex_justification : Option Justification
  pub needs_human : Bool
  pub recommended_action : Option Text
  pub detail : Detail

-- `RuleOutcome.is_clearance`
unfoldable pub is_clearance : RuleOutcome → Bool
is_clearance o = elim o.verdict [
  | none ↦ false
  | some v ↦ elim v [ VerdictName.affected ↦ false | _ ↦ true ]
]

pub record ImportIndex : Type 0 where
  pub scanned : Bool
  pub modules : List Text
  pub files_scanned : ℕ

-- `ImportIndex.any_prefix`; `none` is "not scanned".
unfoldable pub any_prefix : ImportIndex → Text → Option Bool
unfolding starts_with
any_prefix index pkg =
    if not index.scanned
    then none
    else some (
        contains index.modules pkg
        || any (λ m. starts_with m (pkg ++ b'/' ∷ []) || starts_with m (pkg ++ b'.' ∷ []))
            index.modules)

pub record RepoFacts : Type 0 where
  pub import_index : Text → ImportIndex
  pub production_build_targets : Option (List Text)
  pub superseding_fix_for : AlertRecord → Option SupersedingFix
  pub shipped_packages : Text → Option (List Text)

pub record RuleContext : Type 0 where
  pub alert : AlertRecord
  pub facts : RepoFacts

pub data ImportScanner : Type 0 where
  go_scanner python_scanner npm_scanner java_scanner rust_scanner : ImportScanner

abbrev scanners : List (Text × ImportScanner)
scanners =
    (codes "go", go_scanner)
    ∷ (codes "pip", python_scanner)
    ∷ (codes "npm", npm_scanner)
    ∷ (codes "maven", java_scanner)
    ∷ (codes "cargo", rust_scanner)
    ∷ []

unfoldable pub build_scanner : Text → Option ImportScanner
unfolding get resolve_alias
build_scanner ecosystem = get (resolve_alias ecosystem) scanners

unfoldable pub supports_package_membership : ImportScanner → Bool
supports_package_membership java_scanner = false
supports_package_membership _ = true

is_separator : ℕ → Bool
is_separator c = nat_beq c b'-' || nat_beq c b'_' || nat_beq c b'.'

-- `re.sub(r"[-_.]+", "_", package)`; the flag says that the last character was a separator.
collapse : Bool → Text → Text
unfolding is_separator
collapse inside [] = []
collapse inside (c ∷ s) =
    let rest = collapse (is_separator c) s in
    if is_separator c then (if inside then rest else b'_' ∷ rest) else c ∷ rest

unfoldable pub normalize_package : ImportScanner → Text → Text
unfolding collapse lower
normalize_package python_scanner pkg = lower (collapse false pkg)
normalize_package rust_scanner pkg = map (λ c. if nat_beq c b'-' then b'_' else c) pkg
normalize_package _ pkg = pkg
