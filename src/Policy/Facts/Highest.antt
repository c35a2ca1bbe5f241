-- ===== src/Policy/Facts/Highest.antt =====
-- `superseding_fix_for` finds the highest open sibling patch.
use dependabot_harness.Prelude.{
  ◌≡◌, refl, sym, ap, subst, ◌∙◌, ◌≢◌, ◌⊎◌, inl, inr, true, false, Option, none, some, List, [],
  ◌∷◌, string_eq, text_eq, In, here, there, arith, eq_iff, text_beq_iff, ◌↔◌, Option-cases,
  Bool-cases,
}
use dependabot_harness.Alert.{AlertRecord, open_state}
use dependabot_harness.Version.{Version, gt_version, ge_version}
use dependabot_harness.Version.Parse.{try_parse}
use dependabot_harness.Version.Order.{ge_trans, ge_total, ge_refl, eq-ge, gt-eq-not-ge}
use dependabot_harness.Policy.Context.{SupersedingFix}
use dependabot_harness.Policy.Facts.{
  Candidate, sibling, candidate_of, candidates, above, better, greatest, patch_text, choose,
  superseding_fix_for,
}

above_lem :
    (a b : Candidate)
    → (above a b ≡ true → ge_version a.version b.version ≡ true)
      × (above a b ≡ false → ge_version b.version a.version ≡ true)
unfolding above
above_lem a b = (
  λ h. ground (
    arith,
    eq-ge a.version b.version,
    gt-eq-not-ge a.version b.version,
    ge_total a.version b.version,
  ),
  λ h. ground (
    arith,
    eq-ge a.version b.version,
    gt-eq-not-ge a.version b.version,
    ge_total a.version b.version,
  ),
)

better_lem :
    (c best : Candidate)
    → (ge_version (better c best).version c.version ≡ true)
      × (ge_version (better c best).version best.version ≡ true)
      × ((better c best ≡ c) ⊎ (better c best ≡ best))
unfolding better
better_lem c best = elim (Bool-cases (above c best)) [
  | inl up ↦ rw up (ge_refl c.version, (above_lem c best).0 up, inl refl)
  | inr down ↦ rw down ((above_lem c best).1 down, ge_refl best.version, inr refl)
]

greatest-ge_best :
    (best : Candidate) (cs : List Candidate)
    → ge_version (greatest best cs).version best.version ≡ true
unfolding greatest
greatest-ge_best best [] = ge_refl best.version
greatest-ge_best best (c ∷ cs) =
    ge_trans _ (better c best).version best.version (greatest-ge_best (better c best) cs)
      (better_lem c best).1

greatest-ge :
    (best : Candidate) (cs : List Candidate) (c : Candidate)
    → In c cs
    → ge_version (greatest best cs).version c.version ≡ true
unfolding greatest
greatest-ge best [] c m = elim m [ ]
greatest-ge best (x ∷ cs) c (here e) =
    subst (λ z. ge_version (greatest (better x best) cs).version z.version ≡ true) (sym e)
      (ge_trans _ (better x best).version x.version (greatest-ge_best (better x best) cs)
        (better_lem x best).0)
greatest-ge best (x ∷ cs) c (there m) = greatest-ge (better x best) cs c m

greatest-In :
    (best : Candidate) (cs : List Candidate) → (greatest best cs ≡ best) ⊎ In (greatest best cs) cs
unfolding greatest
greatest-In best [] = inl refl
greatest-In best (c ∷ cs) = elim (greatest-In (better c best) cs) [
  | inr m ↦ inr (there m)
  | inl e ↦ elim (better_lem c best).2 [
    | inl first ↦ inr (here (e ∙ first))
    | inr kept ↦ inl (e ∙ kept)
  ]
]

-- A row that is a candidate: an open sibling, whose patch parses above `mine`.
pub record IsSibling (alert row : AlertRecord) (mine parsed : Version) : Type 0 where
  pub same_package : row.purl ≡ alert.purl
  pub same_repo : row.repo ≡ alert.repo
  pub same_manifest : row.manifest_path ≡ alert.manifest_path
  pub still_open : row.state ≡ open_state
  pub other_advisory : row.ghsa_id ≢ alert.ghsa_id
  pub parses : try_parse row.patched_ver ≡ some parsed
  pub higher : gt_version parsed mine ≡ true

sibling_iff :
    (alert row : AlertRecord)
    → (sibling alert row ≡ true) ↔ (
        (row.repo ≡ alert.repo)
        × (row.purl ≡ alert.purl)
        × (row.manifest_path ≡ alert.manifest_path)
        × (row.ghsa_id ≢ alert.ghsa_id)
        × (row.state ≡ open_state))
unfolding sibling
sibling_iff alert row = ground (
  arith,
  eq_iff row.repo alert.repo,
  text_beq_iff row.purl alert.purl,
  text_beq_iff row.manifest_path alert.manifest_path,
  eq_iff row.ghsa_id alert.ghsa_id,
)

candidate_of_lem :
    (alert row : AlertRecord) (mine : Version) (c : Candidate)
    → candidate_of alert mine row ≡ some c
    → IsSibling alert row mine c.version × (row.ghsa_id ≡ c.ghsa_id) × (row.patched_ver ≡ c.patched)
unfolding candidate_of
candidate_of_lem alert row mine c h = ground (arith, sibling_iff alert row)

candidate_of-IsSibling :
    (alert row : AlertRecord) (mine parsed : Version)
    → IsSibling alert row mine parsed
    → candidate_of alert mine row
      ≡ some (record { version = parsed; ghsa_id = row.ghsa_id; patched = row.patched_ver })
unfolding candidate_of
candidate_of-IsSibling alert row mine parsed h = ground (arith, sibling_iff alert row)

candidates-In :
    (alert : AlertRecord) (mine : Version) (rows : List AlertRecord) (c : Candidate)
    → In c (candidates alert mine rows)
    → (row : AlertRecord) × In row rows × (candidate_of alert mine row ≡ some c)
unfolding candidates
candidates-In alert mine [] c m = elim m [ ]
candidates-In alert mine (row ∷ rows) c m =
    step (candidate_of alert mine row) refl m (candidates-In alert mine rows c)
  where
    step :
        (o : Option Candidate)
        → candidate_of alert mine row ≡ o
        → In c
            (elim o [ none ↦ candidates alert mine rows | some x ↦ x ∷ candidates alert mine rows ])
        → (In c (candidates alert mine rows)
            → (r : AlertRecord) × In r rows × (candidate_of alert mine r ≡ some c))
        → (r : AlertRecord) × In r (row ∷ rows) × (candidate_of alert mine r ≡ some c)
    step none e n ih = let (r, at, is) = ih n in (r, there at, is)
    step (some x) e (here same) ih = (row, here refl, e ∙ ap some (sym same))
    step (some x) e (there n) ih = let (r, at, is) = ih n in (r, there at, is)

In-candidates :
    (alert row : AlertRecord) (mine : Version) (rows : List AlertRecord) (c : Candidate)
    → In row rows
    → candidate_of alert mine row ≡ some c
    → In c (candidates alert mine rows)
unfolding candidates
In-candidates alert row mine [] c m e = elim m [ ]
In-candidates alert row mine (x ∷ rows) c (here same) e =
    rw (ap (candidate_of alert mine) (sym same) ∙ e, candidates) (here refl)
In-candidates alert row mine (x ∷ rows) c (there m) e =
    keep (candidate_of alert mine x) (In-candidates alert row mine rows c m e)
  where
    keep :
        (o : Option Candidate)
        → In c (candidates alert mine rows)
        → In c
            (elim o [ none ↦ candidates alert mine rows | some y ↦ y ∷ candidates alert mine rows ])
    keep none n = n
    keep (some y) n = there n

-- What `superseding_fix_for` promises of its answer.
pub record IsHighestFix (rows : List AlertRecord) (alert : AlertRecord) (fix : SupersedingFix)
    : Type 0 where
  pub mine : Version
  pub version : Version
  pub row : AlertRecord
  pub own_patch : try_parse alert.patched_ver ≡ some mine
  pub listed : In row rows
  pub sibling : IsSibling alert row mine version
  pub advisory : fix.ghsa_id ≡ row.ghsa_id
  pub patch : fix.patched_version ≡ patch_text row.patched_ver
  pub highest :
      (other : AlertRecord) (v : Version)
      → In other rows
      → IsSibling alert other mine v
      → ge_version version v ≡ true

choose_lem :
    (rows : List AlertRecord) (alert : AlertRecord) (mine : Version) (fix : SupersedingFix)
    (cs : List Candidate)
    → try_parse alert.patched_ver ≡ some mine
    → cs ≡ candidates alert mine rows
    → choose cs ≡ some fix
    → IsHighestFix rows alert fix
unfolding choose
choose_lem rows alert mine fix [] own e h = cc
choose_lem rows alert mine fix (c ∷ cs) own e h =
    let best = greatest c cs in
    let among : In best (c ∷ cs) = elim (greatest-In c cs) [
      | inl first ↦ here first
      | inr m ↦ there m
    ] in
    let (row, listed, is) = candidates-In alert mine rows best (subst (In best) e among) in
    let (sib, id, patched) = candidate_of_lem alert row mine best is in
    record {
      mine = mine;
      version = best.version;
      row = row;
      own_patch = own;
      listed = listed;
      sibling = sib;
      advisory = ground (arith, id);
      patch = ground (arith, patched);
      highest = λ other v at is_sib. above_all _ (
          subst (In _) (sym e) (
            In-candidates alert other mine rows _ at
              (candidate_of-IsSibling alert other mine v is_sib)));
    }
  where
    above_all :
        (x : Candidate) → In x (c ∷ cs) → ge_version (greatest c cs).version x.version ≡ true
    above_all x (here e') =
        subst (λ z. ge_version (greatest c cs).version z.version ≡ true) (sym e')
          (greatest-ge_best c cs)
    above_all x (there m) = greatest-ge c cs x m

-- A superseding fix is the patch of another open advisory for the same package, repository and
-- manifest, above this alert's own patch, and at or above the patch of every such advisory: one
-- upgrade to it remediates them all.
pub superseding_fix_for_lem :
    (rows : List AlertRecord) (alert : AlertRecord) (fix : SupersedingFix)
    → superseding_fix_for rows alert ≡ some fix
    → IsHighestFix rows alert fix
unfolding superseding_fix_for
superseding_fix_for_lem rows alert fix h = elim (Option-cases (try_parse alert.patched_ver)) [
  | inl missing ↦ absurd (ground arith)
  | inr (mine, own) ↦
      choose_lem rows alert mine fix (candidates alert mine rows) own refl (ground arith)
]
