-- ===== src/Ecosystem/Manifest.antt =====
-- `Dependency` of harness/ecosystems/base.py: an entry of a manifest, and whether its version is one.
-- Letters beyond ASCII are no word characters here.
use dependabot_harness.Prelude.{
  ℕ, Bool, false, not, ◌&&◌, ◌||◌, String, Option, List, [], ◌∷◌, Text, all, any, leb, nat_beq,
  if◌then◌else◌,
}

pub record Dependency : Type 0 where
  pub name : Text
  pub version : Text
  pub scope : String
  pub is_direct : Option Bool

abbrev is_digit : ℕ → Bool
is_digit c = leb b'0' c && leb c b'9'

-- `[\w.+-]`
abbrev is_version_char : ℕ → Bool
is_version_char c =
    (is_digit c || (leb b'a' c && leb c b'z'))
    || ((leb b'A' c && leb c b'Z')
        || (nat_beq c b'_' || (nat_beq c b'.' || (nat_beq c b'+' || nat_beq c b'-'))))

-- `$` also matches before a last newline.
unfoldable pub chomp : Text → Text
chomp [] = []
chomp (c ∷ s) =
    let rest = chomp s in elim s [ [] ↦ if nat_beq c 10 then [] else c ∷ [] | d ∷ r ↦ c ∷ rest ]

abbrev starts_numeric : Text → Bool
starts_numeric [] = false
starts_numeric (c ∷ s) = is_digit c && all is_version_char s

-- `_VERSION_LIKE`
unfoldable pub is_version_like : Text → Bool
is_version_like [] = false
is_version_like (c ∷ s) =
    if nat_beq c b'v' || nat_beq c b'V' then starts_numeric s else starts_numeric (c ∷ s)

-- `re.split(r"[.\-+]", s)`
unfoldable pub split_components : Text → List Text
split_components [] = [] ∷ []
split_components (c ∷ s) =
    let rest = split_components s in
    if nat_beq c b'.' || (nat_beq c b'-' || nat_beq c b'+')
    then [] ∷ rest
    else elim rest [ [] ↦ (c ∷ []) ∷ [] | part ∷ parts ↦ (c ∷ part) ∷ parts ]

-- `_WILDCARD_COMPONENT`
abbrev is_wildcard : Text → Bool
is_wildcard [] = false
is_wildcard (c ∷ []) = nat_beq c b'x' || (nat_beq c b'X' || nat_beq c b'*')
is_wildcard (c ∷ d ∷ s) = false

-- `Dependency.is_pinned`
unfoldable pub is_pinned : Dependency → Bool
unfolding chomp is_version_like split_components
is_pinned dependency =
    let version = chomp dependency.version in
    is_version_like version && not (any is_wildcard (split_components version))
