-- ===== src/Ecosystem.antt =====
-- harness/ecosystems: the adapter registry (`__init__.py`), the shared value types and the central
-- clamp (`base.py`), with the constants of the five adapters.
pub mod Clamp
pub mod Manifest
pub mod Tree
use dependabot_harness.Prelude.{
  ℕ, ◌≡◌, Bool, true, false, not, ◌&&◌, String, Option, none, some, List, [], ◌∷◌, Text, codes, min,
  ◌==◌, text_eq, string_eq, if◌then◌else◌, leb,
}
use dependabot_harness.Alert.{Score}
use dependabot_harness.Version.Parse.{lower}

-- `Scope`
abbrev pub runtime : String
runtime = "runtime"

abbrev pub development : String
development = "development"

abbrev pub unknown : String
unknown = "unknown"

-- The keys of `_ADAPTERS` and of the alias table that lead to no adapter.
pub data Adapter : Type 0 where
  go_adapter python_adapter npm_adapter java_adapter rust_adapter : Adapter

-- `GITHUB_ECOSYSTEM_ALIASES`
abbrev pub aliases : List (Text × Text)
aliases =
    (codes "go", codes "go")
    ∷ (codes "gomod", codes "go")
    ∷ (codes "pip", codes "pip")
    ∷ (codes "pypi", codes "pip")
    ∷ (codes "npm", codes "npm")
    ∷ (codes "maven", codes "maven")
    ∷ (codes "rust", codes "cargo")
    ∷ (codes "cargo", codes "cargo")
    ∷ (codes "nuget", codes "nuget")
    ∷ (codes "composer", codes "composer")
    ∷ (codes "rubygems", codes "rubygems")
    ∷ (codes "actions", codes "actions")
    ∷ (codes "pub", codes "pub")
    ∷ (codes "swift", codes "swift")
    ∷ []

abbrev registry : List (Text × Adapter)
registry =
    (codes "go", go_adapter)
    ∷ (codes "pip", python_adapter)
    ∷ (codes "npm", npm_adapter)
    ∷ (codes "maven", java_adapter)
    ∷ (codes "cargo", rust_adapter)
    ∷ []

-- `d.get(key)`
unfoldable pub get {ℓ} : {A : Type ℓ} → Text → List (Text × A) → Option A
get key [] = none
get key ((k, v) ∷ d) = if k == key then some v else get key d

-- `d.get(key, key)` at the lowered name.
unfoldable pub resolve_alias : Text → Text
unfolding get lower
resolve_alias name = elim (get (lower name) aliases) [ none ↦ lower name | some key ↦ key ]

unfoldable pub get_adapter : Text → Option Adapter
unfolding get resolve_alias
get_adapter name = get (resolve_alias name) registry

unfoldable pub confidence_ceiling : Adapter → Score
confidence_ceiling go_adapter = 9500
confidence_ceiling python_adapter = 7500
confidence_ceiling npm_adapter = 5500
confidence_ceiling java_adapter = 7000
confidence_ceiling rust_adapter = 9000

unfoldable pub dev_scope_is_conclusive : Adapter → Bool
dev_scope_is_conclusive java_adapter = true
dev_scope_is_conclusive rust_adapter = true
dev_scope_is_conclusive _ = false

pub data ReachabilityLevel : Type 0 where
  absent present imported symbol_referenced path_from_entry attacker_controlled : ReachabilityLevel

-- The IntEnum's values.
abbrev pub level_value : ReachabilityLevel → ℕ
level_value absent = 0
level_value present = 1
level_value imported = 2
level_value symbol_referenced = 3
level_value path_from_entry = 4
level_value attacker_controlled = 5

-- `min` of two levels: the first where they are equal.
abbrev pub min_level : ReachabilityLevel → ReachabilityLevel → ReachabilityLevel
min_level a b = if leb (level_value a) (level_value b) then a else b

pub record CallSite : Type 0 where
  pub file : String
  pub line : ℕ
  pub symbol : String

pub record ReachabilityResult : Type 0 where
  pub level : ReachabilityLevel
  pub confidence : Score
  pub method : String
  pub tool_version : String
  pub call_sites : List CallSite
  pub dependency_path : List String
  pub truncated : Bool
  pub error : Option String

-- `ReachabilityResult.failed`; the message keeps the tool's part only.
unfoldable pub failed_result : String → ReachabilityResult
failed_result message = record {
  level = absent;
  confidence = 0;
  method = "failed";
  tool_version = "";
  call_sites = [];
  dependency_path = [];
  truncated = false;
  error = some message;
}

unfoldable pub is_failure : ReachabilityResult → Bool
is_failure r = r.method == "failed"

-- `EcosystemAdapter.clamp`
unfoldable pub clamp : Adapter → ReachabilityResult → Bool → ReachabilityResult
unfolding confidence_ceiling
clamp adapter result symbols_known =
    let ceiling = confidence_ceiling adapter in
    let unsearched = not symbols_known && not (is_failure result) in
    let level = if unsearched then min_level result.level imported else result.level in
    let capped = min result.confidence ceiling in
    let searched = if unsearched then min capped 5000 else capped in
    record result { level = level; confidence = if is_failure result then 0 else searched }
