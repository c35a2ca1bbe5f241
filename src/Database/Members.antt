-- ===== src/Database/Members.antt =====
-- The rows of the table of verdicts: which are there after a write, and where the latest is from.
use dependabot_harness.Prelude.{
  ℕ, ◌≡◌, sym, ap, subst, Bool, String, Option, none, some, List, [], ◌∷◌, Text, filter, ltb,
  or_default, arith, ◌==◌, string_eq, if◌then◌else◌, In, here, there, ◌⊎◌, inl, inr, Bool-cases,
}
use dependabot_harness.Prelude.Tables.{upsert}
use dependabot_harness.Verdict.{VerdictDoc}
use dependabot_harness.Database.{
  Database, VerdictRow, of_verdict, verdict_row, put_verdict, newest, latest_verdict,
}

In-upsert :
    {A : Type 0} (p : A → Bool) (r x : A) (xs : List A)
    → In x (upsert p (λ old. r) r xs)
    → (x ≡ r) ⊎ In x xs
unfolding upsert
In-upsert p r x [] (here e) = inl e
In-upsert p r x [] (there m) = elim m [ ]
In-upsert p r x (y ∷ ys) m = elim (Bool-cases (p y)) [
  | inl selected ↦
      elim (subst (λ b. In x (if b then r ∷ ys else y ∷ upsert p (λ old. r) r ys)) selected m) [
        | here e ↦ inl e
        | there later ↦ inr (there later)
      ]
  | inr other ↦
      elim (subst (λ b. In x (if b then r ∷ ys else y ∷ upsert p (λ old. r) r ys)) other m) [
        | here e ↦ inr (here e)
        | there later ↦ elim (In-upsert p r x ys later) [ inl e ↦ inl e | inr n ↦ inr (there n) ]
      ]
]

-- A verdict after `put_verdict` is the one that was put, or was there before.
pub In-put_verdict :
    (key run : String) (doc : VerdictDoc) (validated : Option Bool) (notes : Option Text)
    (hash : Option String) (now : ℕ) (db : Database) (row : VerdictRow)
    → In row (put_verdict key run doc validated notes hash now db).verdicts
    → (row ≡ verdict_row key run doc validated notes hash now) ⊎ In row db.verdicts
unfolding put_verdict
In-put_verdict key run doc validated notes hash now db row m =
    In-upsert (of_verdict key run) _ row db.verdicts m

In-filter : {A : Type 0} (p : A → Bool) (x : A) (xs : List A) → In x (filter p xs) → In x xs
In-filter p x [] m = elim m [ ]
In-filter p x (y ∷ ys) m = elim (Bool-cases (p y)) [
  | inl kept ↦ elim (subst (λ b. In x (if b then y ∷ filter p ys else filter p ys)) kept m) [
    | here e ↦ here e
    | there later ↦ there (In-filter p x ys later)
  ]
  | inr dropped ↦
      there (
        In-filter p x ys (subst (λ b. In x (if b then y ∷ filter p ys else filter p ys)) dropped m))
]

newest-In :
    (best : Option VerdictRow) (xs : List VerdictRow) (row : VerdictRow)
    → newest best xs ≡ some row
    → (best ≡ some row) ⊎ In row xs
unfolding newest
newest-In best [] row h = inl h
newest-In none (x ∷ xs) row h = elim (newest-In (some x) xs row h) [
  | inl e ↦ inr (here (sym (ap (λ o. or_default o x) e)))
  | inr m ↦ inr (there m)
]
newest-In (some b) (x ∷ xs) row h = elim (Bool-cases (ltb b.created_at x.created_at)) [
  | inl newer ↦
      elim (newest-In (some x) xs row
        (subst (λ t. newest (some (if t then x else b)) xs ≡ some row) newer h)) [
          | inl e ↦ inr (here (sym (ap (λ o. or_default o x) e)))
          | inr m ↦ inr (there m)
        ]
  | inr older ↦
      elim (newest-In (some b) xs row
        (subst (λ t. newest (some (if t then x else b)) xs ≡ some row) older h)) [
          | inl e ↦ inl e
          | inr m ↦ inr (there m)
        ]
]

pub latest_verdict-In :
    (db : Database) (key : String) (row : VerdictRow)
    → latest_verdict db key ≡ some row
    → In row db.verdicts
unfolding latest_verdict
latest_verdict-In db key row h =
    elim (newest-In none (filter (λ r. r.alert_key == key) db.verdicts) row h) [
      | inl absurd ↦ ground (arith, absurd)
      | inr found ↦ In-filter _ row db.verdicts found
    ]
