-- ===== src/Prelude/Tables.antt =====
-- SQL tables as lists of rows: the first row that a key selects, and INSERT ... ON CONFLICT DO
-- UPDATE at a key.
use dependabot_harness.Prelude.{
  ◌≡◌, Bool, true, false, Option, none, some, List, [], ◌∷◌, arith, filter, if◌then◌else◌,
}

module _ {ℓ} {A : Type ℓ} where
  unfoldable pub find : (A → Bool) → List A → Option A
  find p [] = none
  find p (x ∷ xs) = let rest = find p xs in if p x then some x else rest

  -- The first row that `p` selects is rewritten by `update`; with none, `new` is appended.
  unfoldable pub upsert : (A → Bool) → (A → A) → A → List A → List A
  upsert p update new [] = new ∷ []
  upsert p update new (x ∷ xs) =
      let rest = upsert p update new xs in if p x then update x ∷ xs else x ∷ rest

  -- What a selection of the same key finds afterwards.
  pub find-upsert :
      (p : A → Bool) (update : A → A) (new : A) (xs : List A)
      → p new ≡ true
      → ((x : A) → p x ≡ true → p (update x) ≡ true)
      → find p (upsert p update new xs) ≡ some (elim (find p xs) [ none ↦ new | some x ↦ update x ])
  unfolding find upsert
  find-upsert p update new [] hn hu = ground arith
  find-upsert p update new (x ∷ xs) hn hu = ground (arith, hu x, find-upsert p update new xs hn hu)

  -- A selection that overlaps neither the new row nor the rewritten ones finds what it found.
  pub find-upsert_ne :
      (p q : A → Bool) (update : A → A) (new : A) (xs : List A)
      → q new ≡ false
      → ((x : A) → p x ≡ true → q x ≡ false)
      → ((x : A) → p x ≡ true → q (update x) ≡ false)
      → find q (upsert p update new xs) ≡ find q xs
  unfolding find upsert
  find-upsert_ne p q update new [] hn hx hu = ground arith
  find-upsert_ne p q update new (x ∷ xs) hn hx hu =
      ground (arith, hx x, hu x, find-upsert_ne p q update new xs hn hx hu)

  -- So does a query that none of them meets.
  pub filter-upsert_ne :
      (p q : A → Bool) (update : A → A) (new : A) (xs : List A)
      → q new ≡ false
      → ((x : A) → p x ≡ true → q x ≡ false)
      → ((x : A) → p x ≡ true → q (update x) ≡ false)
      → filter q (upsert p update new xs) ≡ filter q xs
  unfolding upsert
  filter-upsert_ne p q update new [] hn hx hu = ground arith
  filter-upsert_ne p q update new (x ∷ xs) hn hx hu =
      ground (arith, hx x, hu x, filter-upsert_ne p q update new xs hn hx hu)
