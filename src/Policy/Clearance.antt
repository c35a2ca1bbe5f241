-- ===== src/Policy/Clearance.antt =====
-- What a rule's outcome rests on: the measured facts behind each decision, and what the engine's
-- check guarantees of every outcome.
use dependabot_harness.Prelude.{
  ℕ, ◌≡◌, refl, ◌≢◌, ◌⊎◌, inl, inr, Option-cases, true, false, String, Option, none, some, List, [],
  ◌∷◌, Text, arith, any, contains, text_eq, ok,
}
use dependabot_harness.Verdict.{justification_eq}
use dependabot_harness.Version.Decide.{at_or_above, is_patch_level_bump}
use dependabot_harness.Util.{purl_package_name}
use dependabot_harness.Policy.Context.{
  RuleOutcome, RuleContext, ImportScanner, any_prefix, build_scanner, supports_package_membership,
  normalize_package, Detail,
}
use dependabot_harness.Policy.Rules.{
  RuleSpec, outcome, already_fixed, superseded, kev_direct_critical, dev_only, not_imported,
  trivial_patch, check_artifact, check_index, ships_together, is_development, conclusive,
}

-- The decision that an outcome copies from its rule's entry in policy.yaml.
pub record Copies (spec : RuleSpec) (o : RuleOutcome) : Type 0 where
  pub id : o.rule_id ≡ spec.id
  pub verdict : o.verdict ≡ spec.verdict
  pub vex_status : o.vex_status ≡ spec.vex_status
  pub vex_justification : o.vex_justification ≡ spec.vex_justification
  pub needs_human : o.needs_human ≡ spec.needs_human

outcome-Copies :
    (spec : RuleSpec) (reason : Option String) (action : Option Text) (detail : Detail)
    (o : RuleOutcome)
    → outcome spec reason action detail ≡ ok (some o)
    → Copies spec o
unfolding outcome
outcome-Copies spec reason action detail o h = ground arith

-- The measured facts behind "not imported": the scanner maps packages onto what it emits, the
-- index was built and holds nothing under the package's name, and the list of shipped packages is
-- known and holds nothing that puts the package's code into the artifact.
pub record IsAbsent (ctx : RuleContext) : Type 0 where
  pub scanner : ImportScanner
  pub pkg : Text
  pub shipped : List Text
  pub has_scanner : build_scanner ctx.alert.ecosystem ≡ some scanner
  pub supported : supports_package_membership scanner ≡ true
  pub named : normalize_package scanner (purl_package_name ctx.alert.purl) ≡ pkg
  pub not_empty : pkg ≢ []
  pub scanned : (ctx.facts.import_index ctx.alert.ecosystem).scanned ≡ true
  pub not_found : any_prefix (ctx.facts.import_index ctx.alert.ecosystem) pkg ≡ some false
  pub known : ctx.facts.shipped_packages ctx.alert.ecosystem ≡ some shipped
  pub not_shipped : any (ships_together pkg) shipped ≡ false

-- The facts behind "dev only": development scope, and either build targets that name neither the
-- package nor its manifest, or no build targets and a build system that excludes the scope.
abbrev pub IsDevOnly : RuleContext → Type 0
IsDevOnly ctx =
    (is_development ctx.alert.dep_scope ≡ true)
    × ((ctx.facts.production_build_targets ≡ none) × (conclusive ctx.alert.ecosystem ≡ true)
        ⊎ ((targets : List Text) × (ctx.facts.production_build_targets ≡ some targets)
            × (contains targets ctx.alert.purl ≡ false)
            × (contains targets ctx.alert.manifest_path ≡ false)))

module _ (spec : RuleSpec) (ctx : RuleContext) (o : RuleOutcome) where
  pub already_fixed_lem :
      already_fixed spec ctx ≡ ok (some o)
      → (at_or_above ctx.alert.resolved_ver ctx.alert.patched_ver ≡ some true) × Copies spec o
  unfolding already_fixed outcome
  already_fixed_lem h = ground arith

  pub superseded-Copies : superseded spec ctx ≡ ok (some o) → Copies spec o
  unfolding superseded outcome
  superseded-Copies h = ground arith

  pub kev_direct_critical-Copies : kev_direct_critical spec ctx ≡ ok (some o) → Copies spec o
  unfolding kev_direct_critical outcome
  kev_direct_critical-Copies h = ground arith

  pub trivial_patch_lem :
      trivial_patch spec ctx ≡ ok (some o)
      → (is_patch_level_bump ctx.alert.resolved_ver ctx.alert.patched_ver ≡ some true)
        × Copies spec o
  unfolding trivial_patch outcome
  trivial_patch_lem h = ground arith

  pub dev_only_lem : dev_only spec ctx ≡ ok (some o) → IsDevOnly ctx × Copies spec o
  unfolding dev_only outcome
  dev_only_lem h = elim (Option-cases ctx.facts.production_build_targets) [
    | inl unknown ↦ ((ground arith, inl (unknown, ground arith)), ground arith)
    | inr (targets, known) ↦
        ((ground arith, inr (targets, known, ground arith, ground arith)), ground arith)
  ]

  check_artifact_lem :
      (pkg : Text) (files : ℕ) (found : Option (List Text))
      → check_artifact spec pkg files found ≡ ok (some o)
      → ((shipped : List Text) × (found ≡ some shipped)
          × (any (ships_together pkg) shipped ≡ false))
        × Copies spec o
  unfolding check_artifact outcome
  check_artifact_lem pkg files none h = cc
  check_artifact_lem pkg files (some shipped) h = ((shipped, refl, ground arith), ground arith)

  check_index_lem :
      (pkg : Text)
      → check_index spec ctx pkg ≡ ok (some o)
      → (pkg ≢ [])
        × ((ctx.facts.import_index ctx.alert.ecosystem).scanned ≡ true)
        × (any_prefix (ctx.facts.import_index ctx.alert.ecosystem) pkg ≡ some false)
        × (check_artifact spec pkg
              (ctx.facts.import_index ctx.alert.ecosystem).files_scanned
              (ctx.facts.shipped_packages ctx.alert.ecosystem)
            ≡ ok (some o))
  unfolding check_index
  check_index_lem [] h = cc
  check_index_lem (c ∷ s) h = (λ e. cc, ground arith, ground arith, ground arith)

  pub not_imported_lem : not_imported spec ctx ≡ ok (some o) → IsAbsent ctx × Copies spec o
  unfolding not_imported outcome
  not_imported_lem h = elim (Option-cases (build_scanner ctx.alert.ecosystem)) [
    | inl missing ↦ absurd (ground arith)
    | inr (scanner, found) ↦
        let pkg = normalize_package scanner (purl_package_name ctx.alert.purl) in
        let supported : supports_package_membership scanner ≡ true = ground arith in
        let (not_empty, scanned, not_found, rest) = check_index_lem pkg (ground arith) in
        let ((shipped, known, not_shipped), copies) = check_artifact_lem pkg _ _ rest in
        (
          record {
            scanner = scanner;
            pkg = pkg;
            shipped = shipped;
            has_scanner = found;
            supported = supported;
            named = refl;
            not_empty = not_empty;
            scanned = scanned;
            not_found = not_found;
            known = known;
            not_shipped = not_shipped;
          },
          copies,
        )
  ]
