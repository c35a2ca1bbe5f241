-- ===== src/Stages/Evidence/Shallow.antt =====
-- Where each pending alert ends, and that a shallow repository is open again.
use dependabot_harness.Prelude.{
  ℕ, ◌≡◌, refl, sym, ap, subst, ◌∙◌, ◌⊎◌, inl, inr, Bool, true, String, Option, some, List, [], ◌∷◌,
  arith, In, here, there, Bool-cases, Option-cases, Result, ok, err, Result-cases,
}
use dependabot_harness.Alert.{AlertRecord}
use dependabot_harness.Ecosystem.{get_adapter}
use dependabot_harness.Database.{
  Database, Status, done, failed, evidence, StageWrite, stage_write, bundle, record_stage,
  stage_status,
}
use dependabot_harness.Database.Stages.{record_stage_lem}
use dependabot_harness.Stages.Evidence.{
  EvidenceBundle, EvidenceState, RepoEvidenceResult, Tools, database_after, build, reachability,
  failed_with, pending, evidence_one, evidence_all, checkout_of, begin_evidence, finish_evidence,
  evidence_repo, is_shallow,
}
use dependabot_harness.Stages.Evidence.Requeue.{
  write_cases, IsSettled, requeue-IsFailed, requeue-verdicts,
}

-- A write of the loop settles its alert, and unsettles none.
write_settles :
    (run key : String) (w : StageWrite) (now : ℕ) (db : Database)
    → (w.status ≡ done) ⊎ (w.status ≡ failed)
    → let after = record_stage run key evidence w now db in
      IsSettled run key after
      × ((other : String) → IsSettled run other db → IsSettled run other after)
write_settles run key w now db end = (
  settled_by key (record_stage_lem run key evidence w now db).0,
  λ other h. elim (write_cases run key other w now db) [
    | inl e ↦ settled_by other e
    | inr e ↦ elim h [ inl d ↦ inl (e ∙ d) | inr f ↦ inr (e ∙ f) ]
  ],
)
  where
    settled_by :
        (other : String)
        → stage_status (record_stage run key evidence w now db) run other evidence ≡ some w.status
        → IsSettled run other (record_stage run key evidence w now db)
    settled_by other e = elim end [
      | inl d ↦ inl (e ∙ ap {B = Option Status} (λ (t : Status). some t) d)
      | inr f ↦ inr (e ∙ ap {B = Option Status} (λ (t : Status). some t) f)
    ]

-- What a step of the loop does to the database.
abbrev IsOne : String → AlertRecord → Database → Result Database EvidenceState → Type 0
IsOne run alert db (err after) = after.verdicts ≡ db.verdicts
IsOne run alert db (ok s) =
    (s.db.verdicts ≡ db.verdicts)
    × IsSettled run alert.alert_key s.db
    × ((other : String) → IsSettled run other db → IsSettled run other s.db)

evidence_one-IsOne :
    (valid : EvidenceBundle → Bool) (tools : Option Tools) (run : String) (now : ℕ)
    (alert : AlertRecord) (s : EvidenceState)
    → IsOne run alert s.db (evidence_one valid tools run now alert s)
unfolding evidence_one record_stage
evidence_one-IsOne valid tools run now alert s = elim (Option-cases (get_adapter alert.ecosystem)) [
  | inl none_known ↦
      let (own, kept) =
        write_settles run alert.alert_key (failed_with "no adapter for ecosystem") now s.db
          (inr refl) in
      rw (evidence_one, none_known) (refl, own, kept)
  | inr (adapter, known) ↦
      let b = build adapter alert (reachability tools adapter alert) in
      elim (Bool-cases (valid b)) [
        | inr bad ↦ rw (evidence_one, known, bad) refl
        | inl good ↦
            let (own, kept) =
              write_settles run alert.alert_key (stage_write done (some (bundle b.reachability)))
                now s.db (inl refl) in
            rw (evidence_one, known, good) (refl, own, kept)
      ]
]

-- The same of the loop over the alerts.
abbrev IsAll : String → List AlertRecord → Database → Result Database EvidenceState → Type 0
IsAll run alerts db (err after) = after.verdicts ≡ db.verdicts
IsAll run alerts db (ok s) =
    (s.db.verdicts ≡ db.verdicts)
    × ((alert : AlertRecord) → In alert alerts → IsSettled run alert.alert_key s.db)
    × ((other : String) → IsSettled run other db → IsSettled run other s.db)

IsAll-later :
    (run : String) (alert : AlertRecord) (alerts : List AlertRecord) (a b : Database)
    (x : Result Database EvidenceState)
    → b.verdicts ≡ a.verdicts
    → IsSettled run alert.alert_key b
    → ((other : String) → IsSettled run other a → IsSettled run other b)
    → IsAll run alerts b x
    → IsAll run (alert ∷ alerts) a x
IsAll-later run alert alerts a b (err after) same here_settled kept later = later ∙ same
IsAll-later run alert alerts a b (ok s) same here_settled kept (alone, each, keeps) =
    (alone ∙ same, settles, λ other h. keeps other (kept other h))
  where
    settles : (x : AlertRecord) → In x (alert ∷ alerts) → IsSettled run x.alert_key s.db
    settles x (here e) =
        subst (λ (y : AlertRecord). IsSettled run y.alert_key s.db) (sym e)
          (keeps alert.alert_key here_settled)
    settles x (there m) = each x m

evidence_all-IsAll :
    (valid : EvidenceBundle → Bool) (tools : Option Tools) (run : String) (now : ℕ)
    (alerts : List AlertRecord) (s : EvidenceState)
    → IsAll run alerts s.db (evidence_all valid tools run now alerts s)
unfolding evidence_all
evidence_all-IsAll valid tools run now [] s = (refl, λ alert m. elim m [ ], λ other h. h)
evidence_all-IsAll valid tools run now (alert ∷ alerts) s =
    let one = evidence_one-IsOne valid tools run now alert s in
    elim (Result-cases (evidence_one valid tools run now alert s)) [
      | inr (after, raises) ↦ rw (evidence_all, raises) (subst (IsOne run alert s.db) raises one)
      | inl (next, went) ↦
          let (same, settled, kept) = subst (IsOne run alert s.db) went one in
          rw (evidence_all, went)
            (IsAll-later run alert alerts s.db next.db _ same settled kept
              (evidence_all-IsAll valid tools run now alerts next))
    ]

-- How a pass over the pending alerts ends.
abbrev pub IsEnded :
    String → List AlertRecord → Database → Result Database (RepoEvidenceResult × Database) → Type 0
IsEnded run alerts db (err after) = after.verdicts ≡ db.verdicts
IsEnded run alerts db (ok (r, after)) =
    (after.verdicts ≡ db.verdicts)
    × ((alert : AlertRecord)
        → In alert alerts
        → IsSettled run alert.alert_key after
          × (r.shallow ≡ true → stage_status after run alert.alert_key evidence ≡ some failed))

finish_evidence-IsEnded :
    (run : String) (now : ℕ) (alerts : List AlertRecord) (db : Database) (s : EvidenceState)
    → IsAll run alerts db (ok s)
    → IsEnded run alerts db (ok (finish_evidence run now alerts s))
unfolding finish_evidence
finish_evidence-IsEnded run now alerts db s (same, settled, kept) =
    elim (Bool-cases (is_shallow s.bundles)) [
      | inl shallow ↦
          rw (finish_evidence, shallow)
            (
              requeue-verdicts run now alerts s.db ∙ same,
              λ alert m. (
                inr (requeue-IsFailed run now alerts s.db alert m),
                λ h. requeue-IsFailed run now alerts s.db alert m,
              ),
            )
      | inr deep ↦
          rw (finish_evidence, deep)
            (same, λ alert m. (settled alert m, λ h. absurd (ground (arith, h))))
    ]

-- A pass leaves the verdicts alone, also where a bundle breaks the schema. Where it does not raise,
-- each alert that was pending ends done or failed, and in a shallow repository it ends failed.
pub evidence_repo-IsEnded :
    (valid : EvidenceBundle → Bool) (ensure : String → String → Result String Tools)
    (run repo : String) (now : ℕ) (db : Database)
    → IsEnded run (pending run repo db) db (evidence_repo valid ensure run repo now db)
unfolding evidence_repo
evidence_repo-IsEnded valid ensure run repo now db =
    let alerts = pending run repo db in
    let all =
      evidence_all-IsAll valid (checkout_of ensure repo db) run now alerts (begin_evidence db) in
    elim (Result-cases
      (evidence_all valid (checkout_of ensure repo db) run now alerts (begin_evidence db))) [
        | inr (after, raises) ↦ rw (evidence_repo, raises) (subst (IsAll run alerts db) raises all)
        | inl (s, went) ↦
            rw (evidence_repo, went)
              (finish_evidence-IsEnded run now alerts db s (subst (IsAll run alerts db) went all))
      ]

pub IsEnded-verdicts :
    (run : String) (alerts : List AlertRecord) (db : Database)
    (x : Result Database (RepoEvidenceResult × Database))
    → IsEnded run alerts db x
    → (database_after x).verdicts ≡ db.verdicts
IsEnded-verdicts run alerts db (err after) h = h
IsEnded-verdicts run alerts db (ok (r, after)) h = h.0
