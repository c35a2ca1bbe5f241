-- ===== src/Util.antt =====
-- `purl_package_name` of harness/util.py, and the string methods that it uses.
pub mod Retry
use dependabot_harness.Prelude.{
  ℕ, Bool, true, false, ◌&&◌, [], ◌∷◌, Text, nat_beq, any, if◌then◌else◌,
}
use dependabot_harness.Version.Parse.{partition}

-- `s.startswith(prefix)`
unfoldable pub starts_with : Text → Text → Bool
starts_with s [] = true
starts_with [] (d ∷ t) = false
starts_with (c ∷ s) (d ∷ t) = nat_beq c d && starts_with s t

abbrev has_char : ℕ → Text → Bool
has_char sep = any (λ c. nat_beq c sep)

abbrev before : ℕ → Text → Text
before sep s = (partition sep s).0

abbrev after : ℕ → Text → Text
after sep s = (partition sep s).1

-- `s.rpartition(sep)[2]`: what stands behind the last separator, or all of it.
unfoldable pub after_last : ℕ → Text → Text
after_last sep [] = []
after_last sep (c ∷ s) =
    let rest = after_last sep s in
    if has_char sep s then rest else if nat_beq c sep then s else c ∷ s

-- `s.rsplit(sep, 1)[0]`: what stands before the last separator, or all of it.
unfoldable pub before_last : ℕ → Text → Text
before_last sep [] = []
before_last sep (c ∷ s) =
    let rest = before_last sep s in
    if has_char sep s then c ∷ rest else if nat_beq c sep then [] else c ∷ s

unfoldable pub purl_package_name : Text → Text
unfolding partition after_last before_last
purl_package_name purl =
    let body = if has_char b':' purl then after b':' purl else purl in
    let stripped = before b'?' (before b'#' body) in
    let (head, path) = partition b'/' stripped in
    let name = if has_char b'@' (after_last b'/' path) then before_last b'@' path else path in
    elim head [ [] ↦ [] | _ ∷ _ ↦ elim path [ [] ↦ [] | _ ∷ _ ↦ name ] ]
