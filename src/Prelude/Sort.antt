-- ===== src/Prelude/Sort.antt =====
-- `sorted`, by insertion, and what it leaves in a list.
use dependabot_harness.Prelude.{
  ◌≡◌, refl, subst, ◌⊎◌, inl, inr, Bool, List, [], ◌∷◌, count, arith, if◌then◌else◌, Bool-cases, In,
  here, there,
}

module _ {ℓ} {A : Type ℓ} (before : A → A → Bool) where
  unfoldable pub insert_sorted : A → List A → List A
  insert_sorted a [] = a ∷ []
  insert_sorted a (x ∷ xs) =
      let rest = insert_sorted a xs in if before a x then a ∷ x ∷ xs else x ∷ rest

  -- `sorted`, by insertion.
  unfoldable pub sorted : List A → List A
  sorted [] = []
  sorted (x ∷ xs) = insert_sorted x (sorted xs)

In-insert_sorted :
    {A : Type 0} (before : A → A → Bool) (e x : A) (xs : List A)
    → In x (insert_sorted before e xs)
    → (x ≡ e) ⊎ In x xs
unfolding insert_sorted
In-insert_sorted before e x [] m = elim m [ here same ↦ inl same | there l ↦ inr l ]
In-insert_sorted before e x (y ∷ ys) m = elim (Bool-cases (before e y)) [
  | inl first ↦
      elim (subst (λ b. In x (if b then e ∷ y ∷ ys else y ∷ insert_sorted before e ys)) first m) [
        | here same ↦ inl same
        | there l ↦ inr l
      ]
  | inr later ↦
      elim (subst (λ b. In x (if b then e ∷ y ∷ ys else y ∷ insert_sorted before e ys)) later m) [
        | here same ↦ inr (here same)
        | there l ↦ elim (In-insert_sorted before e x ys l) [
          | inl same ↦ inl same
          | inr old ↦ inr (there old)
        ]
      ]
]

pub In-sorted :
    {A : Type 0} (before : A → A → Bool) (x : A) (xs : List A) → In x (sorted before xs) → In x xs
unfolding sorted
In-sorted before x [] m = m
In-sorted before x (y ∷ ys) m = elim (In-insert_sorted before y x (sorted before ys) m) [
  | inl same ↦ here same
  | inr l ↦ there (In-sorted before x ys l)
]

count-insert_sorted :
    {A : Type 0} (before : A → A → Bool) (p : A → Bool) (e : A) (xs : List A)
    → count p (insert_sorted before e xs) ≡ count p (e ∷ xs)
unfolding insert_sorted
count-insert_sorted before p e [] = refl
count-insert_sorted before p e (x ∷ xs) = ground (arith, count-insert_sorted before p e xs)

pub count-sorted :
    {A : Type 0} (before : A → A → Bool) (p : A → Bool) (xs : List A)
    → count p (sorted before xs) ≡ count p xs
unfolding sorted
count-sorted before p [] = refl
count-sorted before p (x ∷ xs) =
    omega (arith, count-insert_sorted before p x (sorted before xs), count-sorted before p xs)
