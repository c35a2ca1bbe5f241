-- ===== src/Version/Order.antt =====
-- The order of versions: `functools.total_ordering` over the key is a total preorder, whose
-- derived operators agree with one another.
use Prim.Native.Nat.{compare, Ordering}
use dependabot_harness.Prelude.{ℕ, ◌≡◌, refl, ◌⊎◌, true, not, ◌↔◌, arith, Text, List, ◌∷◌}
use dependabot_harness.Prelude.Order.{
  IsComparator, compare-IsComparator, flip, compare_list, compare_pair-IsComparator,
  compare_list-IsComparator,
}
use dependabot_harness.Version.{
  Token, num, word, Version, key, compare_token, compare_key, lt_version, eq_version, ge_version,
  le_version, gt_version,
}

words : IsComparator (compare_list compare)
words = compare_list-IsComparator compare-IsComparator

token_eq : (s t : Token) → (compare_token s t ≡ Ordering.eq) ↔ (s ≡ t)
token_eq (num a) (num b) = ground arith
token_eq (num a) (word t) = (λ h. cc, λ h. cc)
token_eq (word s) (num b) = (λ h. cc, λ h. cc)
token_eq (word s) (word t) = ground (arith, words.eq_iff s t)

token_flips : (s t : Token) → compare_token t s ≡ flip (compare_token s t)
token_flips (num a) (num b) = ground arith
token_flips (num a) (word t) = refl
token_flips (word s) (num b) = refl
token_flips (word s) (word t) = words.flips s t

token_lt_trans :
    (r s t : Token)
    → compare_token r s ≡ Ordering.lt
    → compare_token s t ≡ Ordering.lt
    → compare_token r t ≡ Ordering.lt
token_lt_trans (num a) (num b) (num c) p q = ground arith
token_lt_trans (num a) s (word t) p q = refl
token_lt_trans (num a) (word s) (num c) p q = cc
token_lt_trans (word r) (num b) t p q = cc
token_lt_trans (word r) (word s) (num c) p q = cc
token_lt_trans (word r) (word s) (word t) p q = words.lt_trans r s t p q

compare_token-IsComparator : IsComparator compare_token
compare_token-IsComparator = record {
  eq_iff = token_eq;
  flips = token_flips;
  lt_trans = token_lt_trans;
}

compare_key-IsComparator : IsComparator compare_key
compare_key-IsComparator = compare_pair-IsComparator words (
    compare_pair-IsComparator compare-IsComparator
      (compare_list-IsComparator compare_token-IsComparator))

-- Two versions are equal exactly when their keys are.
pub eq_version_iff : (v w : Version) → (eq_version v w ≡ true) ↔ (key v ≡ key w)
unfolding eq_version
eq_version_iff v w =
    let laws = compare_key-IsComparator in
    (
      λ h. (laws.eq_iff (key v) (key w)).0 (ground arith),
      λ e. ground (arith, (laws.eq_iff (key v) (key w)).1 e),
    )

-- The operators that `total_ordering` derives agree: `v >= w` is `w <= v`, and `v > w` is `w < v`.
pub ge-eq-le :
    (v w : Version) → (ge_version v w ≡ le_version w v) × (gt_version v w ≡ lt_version w v)
unfolding ge_version le_version gt_version lt_version eq_version
ge-eq-le v w = ground (arith, compare_key-IsComparator.flips (key v) (key w))

-- Of any two versions one is at or above the other.
pub ge_total : (v w : Version) → (ge_version v w ≡ true) ⊎ (ge_version w v ≡ true)
unfolding ge_version lt_version
ge_total v w = ground (arith, compare_key-IsComparator.flips (key v) (key w))

-- `>=` is transitive.
pub ge_trans :
    (u v w : Version) → ge_version u v ≡ true → ge_version v w ≡ true → ge_version u w ≡ true
unfolding ge_version lt_version
ge_trans u v w p q =
    let laws = compare_key-IsComparator in
    ground (
      arith,
      laws.flips (key u) (key v),
      laws.eq_iff (key u) (key v),
      laws.lt_trans (key v) (key u) (key w),
    )

same :
    (a b c d : ℕ) (xs ys : List ℕ) (pre : List Token) (r s : Text)
    → key (record { release = a ∷ b ∷ c ∷ d ∷ xs; prerelease = pre; raw = r })
      ≡ key (record { release = a ∷ b ∷ c ∷ d ∷ ys; prerelease = pre; raw = s })
unfolding key
same a b c d xs ys pre r s = refl

-- Versions that agree on four release components and on the pre-release are equal, whatever
-- components follow: `_key` keeps `padded[:4]`.
pub eq_version_past_four :
    (a b c d : ℕ) (xs ys : List ℕ) (pre : List Token) (r s : Text)
    → eq_version
        (record { release = a ∷ b ∷ c ∷ d ∷ xs; prerelease = pre; raw = r })
        (record { release = a ∷ b ∷ c ∷ d ∷ ys; prerelease = pre; raw = s })
      ≡ true
eq_version_past_four a b c d xs ys pre r s = (eq_version_iff _ _).1 (same a b c d xs ys pre r s)

pub gt-eq-not-ge : (v w : Version) → gt_version v w ≡ not (ge_version w v)
unfolding ge_version le_version gt_version lt_version eq_version
gt-eq-not-ge v w = ground (arith, compare_key-IsComparator.flips (key v) (key w))

pub eq-ge :
    (v w : Version) → eq_version v w ≡ true → (ge_version v w ≡ true) × (ge_version w v ≡ true)
unfolding ge_version lt_version eq_version
eq-ge v w h = ground (arith, compare_key-IsComparator.flips (key v) (key w))

pub ge_refl : (v : Version) → ge_version v v ≡ true
ge_refl v = ground (arith, ge_total v v)
