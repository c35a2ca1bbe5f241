-- ===== src/Stages/Dedup/Distinct.antt =====
-- What `dict.fromkeys` keeps of the members that the agent names.
use dependabot_harness.Prelude.{
  ◌≤◌, ◌≡◌, ◌↔◌, refl, subst, inl, inr, Bool, true, false, not, ◌&&◌, String, List, [], ◌∷◌, arith,
  length, all, filter, Bool-cases, ◌==◌, string_eq, beq_refl, eq_iff,
}
use dependabot_harness.Stages.Dedup.{member_of, distinct}

-- Every key stands once.
abbrev pub IsDistinct : List String → Type 0
IsDistinct [] = Unit
IsDistinct (k ∷ ks) = (member_of ks k ≡ false) × IsDistinct ks

-- Two different members.
abbrev pub HasPair : List String → Type 0
HasPair ks =
    (a : String) × (b : String) × (member_of ks a ≡ true)
    × (member_of ks b ≡ true)
    × ((a == b) ≡ false)

abbrev others : String → List String → List String
others x ks = filter (λ other. not (other == x)) ks

member_of-others :
    (x k : String) (ks : List String) → member_of (others x ks) k ≡ (not (k == x) && member_of ks k)
member_of-others x k [] = ground arith
member_of-others x k (y ∷ ys) =
    ground (arith, eq_iff y k, eq_iff y x, eq_iff k x, member_of-others x k ys)

others-IsDistinct : (x : String) (ks : List String) → IsDistinct ks → IsDistinct (others x ks)
others-IsDistinct x [] d = tt
others-IsDistinct x (y ∷ ys) (fresh, d) = elim (Bool-cases (y == x)) [
  | inl same ↦ rw same (others-IsDistinct x ys d)
  | inr apart ↦ rw apart (ground (arith, fresh, member_of-others x y ys), others-IsDistinct x ys d)
]

pub member_of-distinct :
    (k : String) (ks : List String) → member_of (distinct ks) k ≡ member_of ks k
unfolding distinct
member_of-distinct k [] = refl
member_of-distinct k (y ∷ ys) =
    ground
      (arith, member_of-others y k (distinct ys), eq_iff y k, eq_iff k y, member_of-distinct k ys)

pub distinct-IsDistinct : (ks : List String) → IsDistinct (distinct ks)
unfolding distinct
distinct-IsDistinct [] = tt
distinct-IsDistinct (k ∷ ks) = (
  ground (arith, member_of-others k k (distinct ks), beq_refl k),
  others-IsDistinct k (distinct ks) (distinct-IsDistinct ks),
)

pub all_iff :
    (test : String → Bool) (ks : List String)
    → (all test ks ≡ true) ↔ ((k : String) → member_of ks k ≡ true → test k ≡ true)
all_iff test [] = (λ h k m. absurd (ground (arith, m)), λ h. refl)
all_iff test (x ∷ xs) =
    let (into, out) = all_iff test xs in
    (
      λ h k m. elim (Bool-cases (x == k)) [
        | inl same ↦ subst (λ (z : String). test z ≡ true) ((eq_iff x k).0 same) (ground (arith, h))
        | inr apart ↦ into (ground (arith, h)) k (ground (arith, m, apart))
      ],
      λ h.
          let here_true : test x ≡ true = h x (ground (arith, beq_refl x)) in
          let later = out (λ k m. h k (ground (arith, m))) in ground (arith, here_true, later),
    )

pub pair_iff : (ks : List String) → IsDistinct ks → (2 ≤ length ks) ↔ HasPair ks
pair_iff [] d = (λ h. absurd (omega (arith, h)), λ (a, b, m, n, apart). absurd (ground (arith, m)))
pair_iff (x ∷ []) d = (
  λ h. absurd (omega (arith, h)),
  λ (a, b, m, n, apart). absurd (ground (arith, m, n, apart, eq_iff x a, eq_iff x b, eq_iff a b)),
)
pair_iff (x ∷ y ∷ ks) (fresh, d) = (
  λ h. (
    x,
    y,
    ground (arith, beq_refl x),
    ground (arith, beq_refl y),
    ground (arith, fresh, eq_iff x y, eq_iff y x),
  ),
  λ p. omega arith,
)
