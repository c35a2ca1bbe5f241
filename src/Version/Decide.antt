-- ===== src/Version/Decide.antt =====
-- `at_or_above` and `is_patch_level_bump` of harness/versions.py, and what their answers mean.
use dependabot_harness.Prelude.{
  ◌≡◌, refl, ap, ◌↔◌, ◌⊎◌, Bool, true, false, ◌&&◌, Option, none, some, Text, arith, nat_beq,
  if◌then◌else◌,
}
use dependabot_harness.Version.{Version, major, minor, ge_version, le_version}
use dependabot_harness.Version.Order.{ge-eq-le, ge_total}
use dependabot_harness.Version.Parse.{try_parse}

-- What both functions do once each side is parsed; `none` is "undecidable".
unfoldable pub decide_both :
    (Version → Version → Bool) → Option Version → Option Version → Option Bool
decide_both f none right = none
decide_both f (some left) none = none
decide_both f (some left) (some right) = some (f left right)

unfoldable pub at_or_above : Option Text → Option Text → Option Bool
at_or_above resolved target = decide_both ge_version (try_parse resolved) (try_parse target)

unfoldable pub patch_level : Version → Version → Bool
patch_level left right =
    if le_version right left
    then false
    else nat_beq (major left) (major right) && nat_beq (minor left) (minor right)

unfoldable pub is_patch_level_bump : Option Text → Option Text → Option Bool
is_patch_level_bump resolved patched =
    decide_both patch_level (try_parse resolved) (try_parse patched)

-- `at_or_above` declines exactly when one of the two strings does not parse.
pub at_or_above-eq-none :
    (resolved target : Option Text)
    → (at_or_above resolved target ≡ none)
      ↔ ((try_parse resolved ≡ none) ⊎ (try_parse target ≡ none))
unfolding at_or_above decide_both
at_or_above-eq-none resolved target = ground arith

at_or_above-eq-some :
    (resolved target : Option Text) {b : Bool}
    → at_or_above resolved target ≡ some b
    → (v w : Version) × (try_parse resolved ≡ some v)
      × (try_parse target ≡ some w)
      × (ge_version v w ≡ b)
unfolding at_or_above decide_both
at_or_above-eq-some resolved target h = ground arith

patch_level_lem :
    (v w : Version)
    → patch_level v w ≡ true
    → (ge_version v w ≡ false) × (ge_version w v ≡ true) × (major v ≡ major w) × (minor v ≡ minor w)
unfolding patch_level
patch_level_lem v w h = ground (arith, ge-eq-le v w, ge_total v w)

-- When `is_patch_level_bump` answers True, both strings parse, the patched version is strictly
-- above the resolved one, and major and minor agree; so `at_or_above` answers False there, and
-- True with its arguments exchanged.
pub is_patch_level_bump-eq-true :
    (resolved patched : Option Text)
    → is_patch_level_bump resolved patched ≡ some true
    → (v w : Version) × (try_parse resolved ≡ some v)
      × (try_parse patched ≡ some w)
      × (major v ≡ major w)
      × (minor v ≡ minor w)
      × (at_or_above resolved patched ≡ some false)
      × (at_or_above patched resolved ≡ some true)
unfolding is_patch_level_bump at_or_above decide_both
is_patch_level_bump-eq-true resolved patched h = go (try_parse resolved) (try_parse patched) h
  where
    go :
        (x y : Option Version)
        → decide_both patch_level x y ≡ some true
        → (v w : Version) × (x ≡ some v)
          × (y ≡ some w)
          × (major v ≡ major w)
          × (minor v ≡ minor w)
          × (decide_both ge_version x y ≡ some false)
          × (decide_both ge_version y x ≡ some true)
    go none y e = cc
    go (some v) none e = cc
    go (some v) (some w) e =
        let l = patch_level_lem v w (ground arith) in
        (v, w, refl, refl, l.2, l.3, ap some l.0, ap some l.1)
