-- ===== src/Database/Verdicts.antt =====
-- Verdicts: what `latest_verdict` shows after `put_verdict`.
use dependabot_harness.Prelude.{
  ℕ, ◌≤◌, ◌<◌, ◌≡◌, refl, ap, Bool, true, false, String, Option, none, some, List, [], ◌∷◌, Text,
  arith, eq_iff, ◌==◌, string_eq, filter, beq_refl,
}
use dependabot_harness.Prelude.Tables.{upsert}
use dependabot_harness.Verdict.{VerdictDoc}
use dependabot_harness.Database.{
  Database, VerdictRow, of_verdict, verdict_row, put_verdict, newest, latest_verdict,
}

abbrev pub All {ℓ κ} : {A : Type ℓ} → (A → Type κ) → List A → Type κ
All P [] = Unit
All P (x ∷ xs) = P x × All P xs

module _ (key run : String) (now : ℕ) where
  -- The alert's rows are not from the future, and those of other runs are older than `now`.
  abbrev pub IsPast : VerdictRow → Type 0
  IsPast row =
      (row.alert_key == key) ≡ true
      → (row.created_at ≤ now) × ((row.run_id == run) ≡ false → row.created_at < now)

abbrev IsOlder : ℕ → Option VerdictRow → Type 0
IsOlder now none = Unit
IsOlder now (some row) = row.created_at < now

newest_stays :
    (r : VerdictRow) (key run : String) (xs : List VerdictRow)
    → All (IsPast key run r.created_at) xs
    → newest (some r) (filter (λ row. row.alert_key == key) xs) ≡ some r
unfolding newest
newest_stays r key run [] h = refl
newest_stays r key run (x ∷ xs) (p, h) = ground (arith, p, newest_stays r key run xs h)

newest-upsert :
    (r : VerdictRow) (best : Option VerdictRow) (xs : List VerdictRow)
    → All (IsPast r.alert_key r.run_id r.created_at) xs
    → IsOlder r.created_at best
    → newest best (
        filter
          (λ row. row.alert_key == r.alert_key)
          (upsert (of_verdict r.alert_key r.run_id) (λ old. r) r xs))
      ≡ some r
unfolding newest upsert of_verdict
newest-upsert r none [] h b = ground (arith, beq_refl r.alert_key)
newest-upsert r (some best) [] h b = ground (arith, beq_refl r.alert_key)
newest-upsert r none (x ∷ xs) (p, h) b = ground (
  arith,
  p,
  beq_refl r.alert_key,
  newest_stays r r.alert_key r.run_id xs h,
  newest-upsert r none xs h tt,
  newest-upsert r (some x) xs h,
)
newest-upsert r (some best) (x ∷ xs) (p, h) b = ground (
  arith,
  p,
  beq_refl r.alert_key,
  newest_stays r r.alert_key r.run_id xs h,
  newest-upsert r (some best) xs h b,
  newest-upsert r (some x) xs h,
)

-- Where every verdict of the alert is of the past, and those of other runs are older than `now`,
-- the latest verdict after `put_verdict` is the one that was put.
pub latest_verdict-put_verdict :
    (key run : String) (doc : VerdictDoc) (validated : Option Bool) (notes : Option Text)
    (hash : Option String) (now : ℕ) (db : Database)
    → All (IsPast key run now) db.verdicts
    → latest_verdict (put_verdict key run doc validated notes hash now db) key
      ≡ some (verdict_row key run doc validated notes hash now)
unfolding latest_verdict put_verdict verdict_row
latest_verdict-put_verdict key run doc validated notes hash now db h =
    newest-upsert (verdict_row key run doc validated notes hash now) none db.verdicts h tt

filter-upsert :
    (key other run : String) (r : VerdictRow) (xs : List VerdictRow)
    → (key == other) ≡ false
    → r.alert_key ≡ key
    → filter (λ row. row.alert_key == other) (upsert (of_verdict key run) (λ old. r) r xs)
      ≡ filter (λ row. row.alert_key == other) xs
unfolding upsert of_verdict
filter-upsert key other run r [] differ of_key =
    ground (arith, eq_iff r.alert_key other, eq_iff key other)
filter-upsert key other run r (x ∷ xs) differ of_key = ground (
  arith,
  eq_iff r.alert_key other,
  eq_iff x.alert_key key,
  eq_iff x.alert_key other,
  eq_iff key other,
  filter-upsert key other run r xs differ of_key,
)

-- The verdicts of other alerts are left alone.
latest_verdict-put_verdict_ne :
    (key other run : String) (doc : VerdictDoc) (validated : Option Bool) (notes : Option Text)
    (hash : Option String) (now : ℕ) (db : Database)
    → (key == other) ≡ false
    → latest_verdict (put_verdict key run doc validated notes hash now db) other
      ≡ latest_verdict db other
unfolding latest_verdict put_verdict verdict_row
latest_verdict-put_verdict_ne key other run doc validated notes hash now db differ =
    ap (newest none) (
      filter-upsert key other run (verdict_row key run doc validated notes hash now) db.verdicts
        differ refl)

-- Where every verdict of the alert is of the past, and those of other runs are older than `now`, the
-- latest verdict after `put_verdict` is the one that was put; other alerts show what they showed.
pub put_verdict_lem :
    (key run : String) (doc : VerdictDoc) (validated : Option Bool) (notes : Option Text)
    (hash : Option String) (now : ℕ) (db : Database)
    → All (IsPast key run now) db.verdicts
    → let after = put_verdict key run doc validated notes hash now db in
      (latest_verdict after key ≡ some (verdict_row key run doc validated notes hash now))
      × ((other : String)
          → (key == other) ≡ false
          → latest_verdict after other ≡ latest_verdict db other)
put_verdict_lem key run doc validated notes hash now db past = (
  latest_verdict-put_verdict key run doc validated notes hash now db past,
  λ other differ.
      latest_verdict-put_verdict_ne key other run doc validated notes hash now db differ,
)
