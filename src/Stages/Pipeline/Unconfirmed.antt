-- ===== src/Stages/Pipeline/Unconfirmed.antt =====
-- The writes of the other stages: their verdicts are new and not validated, or were there before.
use dependabot_harness.Prelude.{
  ℕ, ◌≡◌, refl, ap, subst, Bool, true, false, not, ◌&&◌, String, Option, none, some, List, [], ◌∷◌,
  Text, if◌then◌else◌, In, ◌⊎◌, inl, inr, Option-cases,
}
use dependabot_harness.Alert.{AlertRecord}
use dependabot_harness.Verdict.{VerdictDoc}
use dependabot_harness.Database.{
  Database, Status, VerdictRow, verdict_row, put_verdict, record_stage, ClusterRow, latest_verdict,
}
use dependabot_harness.Database.Members.{In-put_verdict}
use dependabot_harness.Policy.Context.{RuleOutcome}
use dependabot_harness.Policy.Engine.{has_verdict, is_dedup}
use dependabot_harness.Stages.Policy
use dependabot_harness.Stages.Judgment.{record_verdict}
use dependabot_harness.Stages.Dedup.{
  canonical_key, copy_verdict, propagate_row, propagate_rows, propagate_verdicts,
}

-- A verdict of `after` was in `before`, or nobody has validated it.
abbrev pub OnlyUnconfirmed : Database → Database → Type 0
OnlyUnconfirmed before after =
    (row : VerdictRow) → In row after.verdicts → In row before.verdicts ⊎ (row.validated ≡ none)

put-OnlyUnconfirmed :
    (before : Database) (key run : String) (doc : VerdictDoc) (notes : Option Text)
    (hash : Option String) (now : ℕ) (db : Database)
    → db.verdicts ≡ before.verdicts
    → OnlyUnconfirmed before (put_verdict key run doc none notes hash now db)
unfolding verdict_row
put-OnlyUnconfirmed before key run doc notes hash now db same row m =
    elim (In-put_verdict key run doc none notes hash now db row m) [
      | inl new ↦ inr (ap (λ r. r.validated) new)
      | inr old ↦ inl (subst (In row) same old)
    ]

if-keeps :
    {A : Type 0} (P : A → Type 0) (test : Bool) (x y : A) → P x → P y → P (if test then x else y)
if-keeps P true x y holds also = holds
if-keeps P false x y holds also = also

pub policy-OnlyUnconfirmed :
    (run : String) (alert : AlertRecord) (o : Option RuleOutcome) (hash : Option String) (now : ℕ)
    (db : Database)
    → OnlyUnconfirmed db (Policy.record_outcome run alert o hash now db)
unfolding Policy.record_outcome record_stage
policy-OnlyUnconfirmed run alert none hash now db = λ row m. inl m
policy-OnlyUnconfirmed run alert (some o) hash now db =
    if-keeps (OnlyUnconfirmed db) (not (is_dedup o.kind) && has_verdict o.verdict) _ _
      (put-OnlyUnconfirmed db alert.alert_key run _ none hash now _ refl) (λ row m. inl m)

pub judgment-OnlyUnconfirmed :
    (run : String) (alert : AlertRecord) (judged : VerdictDoc × Status) (hash : Option String)
    (now : ℕ) (db : Database)
    → OnlyUnconfirmed db (record_verdict run alert judged hash now db)
unfolding record_verdict record_stage
judgment-OnlyUnconfirmed run alert (doc, status) hash now db =
    put-OnlyUnconfirmed db alert.alert_key run doc none hash now _ refl

copy-OnlyUnconfirmed :
    (run : String) (now : ℕ) (member source : String) (db : Database) (n : ℕ)
    → OnlyUnconfirmed db (copy_verdict run now member source (db, n)).0
unfolding copy_verdict
copy-OnlyUnconfirmed run now member source db n = elim (Option-cases (latest_verdict db source)) [
  | inl undecided ↦ rw (copy_verdict, undecided) (λ row m. inl m)
  | inr (stored, found) ↦
      rw (copy_verdict, found)
        (put-OnlyUnconfirmed db member run _ _ stored.structure_hash now db refl)
]

propagate_row-OnlyUnconfirmed :
    (run : String) (now : ℕ) (cluster : ClusterRow) (db : Database) (n : ℕ)
    → OnlyUnconfirmed db (propagate_row run now cluster (db, n)).0
unfolding propagate_row
propagate_row-OnlyUnconfirmed run now cluster db n =
    elim (Option-cases (canonical_key db.clusters cluster.cluster_id)) [
      | inl headless ↦ rw (propagate_row, headless) (λ row m. inl m)
      | inr (source, found) ↦
          rw (propagate_row, found) (copy-OnlyUnconfirmed run now cluster.alert_key source db n)
    ]

propagate_rows-OnlyUnconfirmed :
    (run : String) (now : ℕ) (rows : List ClusterRow) (s : Database × ℕ)
    → OnlyUnconfirmed s.0 (propagate_rows run now rows s).0
unfolding propagate_rows
propagate_rows-OnlyUnconfirmed run now [] s row m = inl m
propagate_rows-OnlyUnconfirmed run now (c ∷ cs) (db, n) row m =
    elim (propagate_rows-OnlyUnconfirmed run now cs (propagate_row run now c (db, n)) row m) [
      | inl earlier ↦ propagate_row-OnlyUnconfirmed run now c db n row earlier
      | inr new ↦ inr new
    ]

pub propagate-OnlyUnconfirmed :
    (run : String) (now : ℕ) (db : Database) → OnlyUnconfirmed db (propagate_verdicts run now db).0
unfolding propagate_verdicts
propagate-OnlyUnconfirmed run now db = propagate_rows-OnlyUnconfirmed run now _ (db, 0)
