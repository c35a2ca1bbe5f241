-- ===== src/Prelude/Sums.antt =====
-- Sums over lists, and sums over the rows that pass a test (SQL's SUM with a WHERE clause).
use dependabot_harness.Prelude.{
  ℕ, ◌+◌, ◌≤◌, ◌≡◌, Bool, true, List, [], ◌∷◌, ◌++◌, arith, if◌then◌else◌,
}

module _ {ℓ} {A : Type ℓ} where
  abbrev pub sum_where : (A → Bool) → (A → ℕ) → List A → ℕ
  sum_where p f [] = 0
  sum_where p f (x ∷ xs) = (if p x then f x else 0) + sum_where p f xs

  pub sum_where-append :
      (p : A → Bool) (f : A → ℕ) (xs ys : List A)
      → sum_where p f (xs ++ ys) ≡ sum_where p f xs + sum_where p f ys
  sum_where-append p f [] ys = omega arith
  sum_where-append p f (x ∷ xs) ys = omega (arith, sum_where-append p f xs ys)

  -- A narrower test sums to no more.
  pub sum_where_mono :
      (p q : A → Bool) (f : A → ℕ)
      → ((x : A) → p x ≡ true → q x ≡ true)
      → (xs : List A) → sum_where p f xs ≤ sum_where q f xs
  sum_where_mono p q f h [] = omega arith
  sum_where_mono p q f h (x ∷ xs) = ground (arith, h x, sum_where_mono p q f h xs)
