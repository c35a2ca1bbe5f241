-- ===== src/Version.antt =====
-- harness/versions.py: a version string, its parse and its order. Version strings are ASCII here:
-- `\d`, `str.strip` and `str.lower` are written out on code points below 128.
pub mod Parse
pub mod Order
pub mod Decide
use Prim.Native.Nat.{compare, Ordering}
use dependabot_harness.Prelude.{
  ℕ, zero, suc, ◌-◌, ◌≡◌, Bool, true, false, not, ◌&&◌, ◌||◌, List, [], ◌∷◌, ◌++◌, Option, none,
  some, map, Text, length, take, replicate, leb, if◌then◌else◌,
}
use dependabot_harness.Prelude.Order.{compare_pair, compare_list}

-- `str | int` in `Version.prerelease`.
pub data Token : Type 0 where
  num : ℕ → Token
  word : Text → Token

pub record Version : Type 0 where
  pub release : List ℕ
  pub prerelease : List Token
  pub raw : Text

unfoldable pub major : Version → ℕ
major v = elim v.release [ [] ↦ 0 | n ∷ _ ↦ n ]

unfoldable pub minor : Version → ℕ
minor v = elim v.release [ [] ↦ 0 | _ ∷ ns ↦ elim ns [ [] ↦ 0 | n ∷ _ ↦ n ] ]

is_prerelease : Version → Bool
is_prerelease v = elim v.prerelease [ [] ↦ false | _ ∷ _ ↦ true ]

-- `self.release + (0,) * (4 - len(self.release))`, then `padded[:4]`: components past the fourth
-- are dropped.
unfoldable pub padded : List ℕ → List ℕ
padded release = take 4 (release ++ replicate (4 - length release) 0)

abbrev pub Key : Type 0
Key = List ℕ × (ℕ × List Token)

unfoldable pub key : Version → Key
unfolding padded is_prerelease
key v = (padded v.release, (if is_prerelease v then 0 else 1, v.prerelease))

-- The key's `(0, part) if isinstance(part, int) else (1, part)`: numbers stand before words.
abbrev pub compare_token : Token → Token → Ordering
compare_token (num a) (num b) = compare a b
compare_token (num a) (word t) = Ordering.lt
compare_token (word s) (num b) = Ordering.gt
compare_token (word s) (word t) = compare_list compare s t

abbrev pub compare_key : Key → Key → Ordering
compare_key =
    compare_pair (compare_list compare) (compare_pair compare (compare_list compare_token))

-- `__lt__` and `__eq__`; the other operators are `functools.total_ordering`'s.
unfoldable pub lt_version : Version → Version → Bool
lt_version v w = elim (compare_key (key v) (key w)) [ Ordering.lt ↦ true | _ ↦ false ]

unfoldable pub eq_version : Version → Version → Bool
eq_version v w = elim (compare_key (key v) (key w)) [ Ordering.eq ↦ true | _ ↦ false ]

-- `a >= b` is `not a < b`.
unfoldable pub ge_version : Version → Version → Bool
ge_version v w = not (lt_version v w)

-- `a <= b` is `a < b or a == b`.
unfoldable pub le_version : Version → Version → Bool
le_version v w = lt_version v w || eq_version v w

-- `a > b` is `not a < b and a != b`.
unfoldable pub gt_version : Version → Version → Bool
gt_version v w = not (lt_version v w) && not (eq_version v w)
