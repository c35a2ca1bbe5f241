-- ===== src/Validation/Checks.antt =====
-- What it means that a verdict passes the mechanical checks.
use dependabot_harness.Prelude.{
  ℕ, ◌≤◌, ◌<◌, ◌≡◌, refl, ◌↔◌, inl, inr, Bool, true, false, ◌&&◌, Option, none, some, List, [], ◌∷◌,
  map, or_default, Text, arith, &&-eq-true, Option-cases,
}
use dependabot_harness.Alert.{Score}
use dependabot_harness.Verdict.{VerdictDoc, VexStatus, Citation, verdict_of, is_dismissing}
use dependabot_harness.Ecosystem.{
  Adapter, ReachabilityResult, level_value, is_failure, get_adapter, confidence_ceiling,
}
use dependabot_harness.Validation.{
  report_passed, FileState, missing, unreadable, has_lines, Checkout, is_cisa, check_justification,
  check_ceiling, ceiling_passes, check_contradiction, contradicts, check_line, check_citation,
  check_citations, check_verdict,
}

-- A cited line lies inside an existing, readable file of the checkout.
abbrev pub IsLocated : Checkout → Citation → Type 0
IsLocated root c = (total : ℕ) × (root c.file ≡ has_lines total) × (1 ≤ c.line) × (c.line ≤ total)

abbrev pub AllLocated : Checkout → List Citation → Type 0
AllLocated root [] = Unit
AllLocated root (c ∷ cs) = IsLocated root c × AllLocated root cs

-- Citations are verified, or there is nothing to verify them against and no dismissal.
abbrev pub AreVerified : VerdictDoc → List Citation → Option Checkout → Type 0
AreVerified doc [] root = Unit
AreVerified doc (c ∷ cs) none = is_dismissing (verdict_of doc) ≡ false
AreVerified doc (c ∷ cs) (some root) = AllLocated root (c ∷ cs)

pub record IsAccepted (schema_ok : VerdictDoc → Bool) (doc : VerdictDoc)
    (bundle : Option ReachabilityResult) (root : Option Checkout) (ecosystem : Option Text)
    : Type 0 where
  pub well_formed : schema_ok doc ≡ true
  pub coded : doc.vex_status ≡ some VexStatus.not_affected → is_cisa doc.vex_justification ≡ true
  pub within :
      (name : Text) (adapter : Adapter)
      → ecosystem ≡ some name
      → get_adapter name ≡ some adapter
      → or_default doc.confidence 0 ≤ confidence_ceiling adapter
  pub consistent :
      (b : ReachabilityResult)
      → bundle ≡ some b
      → is_dismissing (verdict_of doc) ≡ true
      → is_failure b ≡ false
      → level_value b.level < 4
  pub verified : AreVerified doc doc.evidence_cited root

line_iff :
    (state : FileState) (line : ℕ)
    → ((check_line state line).passed ≡ true)
      ↔ ((total : ℕ) × (state ≡ has_lines total) × (1 ≤ line) × (line ≤ total))
unfolding check_line
line_iff missing line = (λ h. cc, λ (total, e, low, high). cc)
line_iff unreadable line = (λ h. cc, λ (total, e, low, high). cc)
line_iff (has_lines n) line =
    (λ h. (n, refl, ground arith, ground arith), λ (total, e, low, high). ground arith)

citation_iff :
    (root : Checkout) (c : Citation) → ((check_citation root c).passed ≡ true) ↔ IsLocated root c
unfolding check_citation
citation_iff root c = line_iff (root c.file) c.line

citations_iff :
    (root : Checkout) (cs : List Citation)
    → (report_passed (map (check_citation root) cs) ≡ true) ↔ AllLocated root cs
unfolding report_passed
citations_iff root [] = (λ h. tt, λ h. refl)
citations_iff root (c ∷ cs) = (
  λ h.
      let (first, rest) = &&-eq-true _ _ h in
      ((citation_iff root c).0 first, (citations_iff root cs).0 rest),
  λ (first, rest). rw ((citation_iff root c).1 first) ((citations_iff root cs).1 rest),
)

verified_iff :
    (doc : VerdictDoc) (cs : List Citation) (root : Option Checkout)
    → (report_passed (check_citations doc cs root) ≡ true) ↔ AreVerified doc cs root
unfolding check_citations report_passed
verified_iff doc [] root = (λ h. tt, λ h. refl)
verified_iff doc (c ∷ cs) none = (λ h. ground arith, λ h. ground arith)
verified_iff doc (c ∷ cs) (some root) = citations_iff root (c ∷ cs)

ceiling_lem :
    (confidence : Score) (ecosystem : Option Text)
    → (ceiling_passes confidence ecosystem ≡ true) ↔ (
        (name : Text) (adapter : Adapter)
        → ecosystem ≡ some name
        → get_adapter name ≡ some adapter
        → confidence ≤ confidence_ceiling adapter)
unfolding ceiling_passes
ceiling_lem confidence none = (λ h name adapter e a. cc, λ h. refl)
ceiling_lem confidence (some ecosystem) = (
  λ h name adapter e a. ground arith,
  λ h. elim (Option-cases (get_adapter ecosystem)) [
    | inl unsupported ↦ ground arith
    | inr (adapter, found) ↦ ground (arith, h ecosystem adapter refl found)
  ],
)

contradiction_iff :
    (doc : VerdictDoc) (bundle : Option ReachabilityResult)
    → ((check_contradiction doc bundle).passed ≡ true) ↔ (
        (b : ReachabilityResult)
        → bundle ≡ some b
        → is_dismissing (verdict_of doc) ≡ true
        → is_failure b ≡ false
        → level_value b.level < 4)
unfolding check_contradiction contradicts
contradiction_iff doc none = (λ h b e d f. cc, λ h. refl)
contradiction_iff doc (some x) = (λ h b e d f. ground arith, λ h. ground (arith, h x refl))

justification_iff :
    (doc : VerdictDoc)
    → ((check_justification doc).passed ≡ true)
      ↔ (doc.vex_status ≡ some VexStatus.not_affected → is_cisa doc.vex_justification ≡ true)
unfolding check_justification
justification_iff doc = (λ h e. ground arith, λ h. ground arith)

all_true :
    {a b c d e : Bool}
    → a ≡ true
    → b ≡ true
    → c ≡ true
    → d ≡ true
    → e ≡ true
    → (a && (b && (c && (d && e)))) ≡ true
all_true p q r s t = ground arith

-- The mechanical report passes exactly when the verdict fits the schema, a `not_affected` status
-- has a CISA code, the confidence is within the ecosystem's ceiling, a dismissal contradicts no
-- proven call path, and every cited line lies in its file (with no checkout: nothing is cited, or
-- nothing is dismissed).
pub check_verdict_iff :
    (schema_ok : VerdictDoc → Bool) (doc : VerdictDoc) (bundle : Option ReachabilityResult)
    (root : Option Checkout) (ecosystem : Option Text)
    → (report_passed (check_verdict schema_ok doc bundle root ecosystem) ≡ true)
      ↔ IsAccepted schema_ok doc bundle root ecosystem
unfolding check_verdict report_passed check_ceiling
check_verdict_iff schema_ok doc bundle root ecosystem = (
  λ h.
      let (a, h₁) = &&-eq-true _ _ h in
      let (b, h₂) = &&-eq-true _ _ h₁ in
      let (c, h₃) = &&-eq-true _ _ h₂ in
      let (d, e) = &&-eq-true _ _ h₃ in
      record {
        well_formed = a;
        coded = (justification_iff doc).0 b;
        within = (ceiling_lem _ ecosystem).0 c;
        consistent = (contradiction_iff doc bundle).0 d;
        verified = (verified_iff doc doc.evidence_cited root).0 e;
      },
  λ u.
      all_true u.well_formed ((justification_iff doc).1 u.coded)
        ((ceiling_lem _ ecosystem).1 u.within) ((contradiction_iff doc bundle).1 u.consistent)
        ((verified_iff doc doc.evidence_cited root).1 u.verified),
)
