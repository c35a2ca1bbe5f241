-- ===== src/Ecosystem/Tree/Unseen.antt =====
-- How many ends of edges the search of a dependency path has yet to see.
use dependabot_harness.Prelude.{
  ℕ, ◌+◌, ◌≤◌, ◌≡◌, sym, subst, inl, inr, true, false, String, List, [], ◌∷◌, ◌++◌, length,
  contains, In, here, there, ◌==◌, string_eq, eq_iff, arith, Bool-cases, if◌then◌else◌,
}
use dependabot_harness.Analysis.Shipped.{Graph, children}
use dependabot_harness.Ecosystem.Tree.{targets}

-- How many ends of edges are not seen.
unfoldable pub unseen : List String → List String → ℕ
unseen [] seen = 0
unseen (t ∷ ts) seen = (if contains seen t then 0 else 1) + unseen ts seen

unseen_mono : (ts seen : List String) (c : String) → unseen ts (c ∷ seen) ≤ unseen ts seen
unfolding unseen
unseen_mono [] seen c = omega arith
unseen_mono (t ∷ ts) seen c = ground (arith, unseen_mono ts seen c)

pub unseen_drop :
    (ts seen : List String) (c : String)
    → In c ts
    → contains seen c ≡ false
    → unseen ts (c ∷ seen) + 1 ≤ unseen ts seen
unfolding unseen
unseen_drop [] seen c m fresh = elim m [ ]
unseen_drop (t ∷ ts) seen c (here same) fresh =
    let first : (t == c) ≡ true = (eq_iff t c).1 (sym same) in
    let other : contains seen t ≡ false = subst (λ x. contains seen x ≡ false) same fresh in
    ground (arith, unseen_mono ts seen c, first, other)
unseen_drop (t ∷ ts) seen c (there later) fresh = ground (arith, unseen_drop ts seen c later fresh)

pub unseen_le : (ts seen : List String) → unseen ts seen ≤ length ts
unfolding unseen
unseen_le [] seen = omega arith
unseen_le (t ∷ ts) seen = ground (arith, unseen_le ts seen)

pub In-left : {A : Type 0} (x : A) (xs ys : List A) → In x xs → In x (xs ++ ys)
In-left x [] ys m = elim m [ ]
In-left x (y ∷ xs) ys (here same) = here same
In-left x (y ∷ xs) ys (there later) = there (In-left x xs ys later)

pub In-right : {A : Type 0} (x : A) (xs ys : List A) → In x ys → In x (xs ++ ys)
In-right x [] ys m = m
In-right x (y ∷ xs) ys m = there (In-right x xs ys m)

pub children-targets :
    (edges : Graph) (a c : String) → In c (children edges a) → In c (targets edges)
unfolding children targets
children-targets [] a c m = elim m [ ]
children-targets ((k, deps) ∷ edges) a c m = elim (Bool-cases (k == a)) [
  | inl same ↦
      In-left c deps (targets edges)
        (subst (λ b. In c (if b then deps else children edges a)) same m)
  | inr other ↦ In-right c deps (targets edges) (
      children-targets edges a c (subst (λ b. In c (if b then deps else children edges a)) other m))
]

pub length-snoc : {A : Type 0} (xs : List A) (x : A) → length (xs ++ x ∷ []) ≡ length xs + 1
length-snoc [] x = omega arith
length-snoc (y ∷ xs) x = omega (arith, length-snoc xs x)
