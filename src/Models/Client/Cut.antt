-- ===== src/Models/Client/Cut.antt =====
-- What becomes of an answer that was cut at its length.
use dependabot_harness.Prelude.{
  ℕ, ◌⊎◌, ◌≡◌, ◌≢◌, refl, ◌↔◌, Bool, true, some, [], ◌∷◌, Text, arith, Option-cases, inl, inr,
}
use dependabot_harness.Version.Parse.{strip}
use dependabot_harness.Models.Errors.{
  ResponseClass, Python, classify, classify_body, as_json_object,
}
use dependabot_harness.Models.Client.Messages.{neutral_stop_reason}

classify_body-cut :
    (py : Python) (body : Text) → classify_body py (some "max_tokens") body ≢ ResponseClass.ok
unfolding classify_body
classify_body-cut py body h = elim (Option-cases (as_json_object py body)) [
  | inr (parsed, found) ↦ ground (arith, found, h)
  | inl prose ↦ ground (arith, prose, h)
]

List-cases : (t : Text) → (t ≡ []) ⊎ ((c : ℕ) × (s : Text) × (t ≡ c ∷ s))
List-cases [] = inl refl
List-cases (c ∷ s) = inr (c, s, refl)

-- An answer of OpenAI's that ends for its length is usable exactly when it calls a tool and its text
-- is blank.
pub classify-cut :
    (py : Python) (text : Text) (has_tool_calls : Bool)
    → (classify py (some text) (neutral_stop_reason (some "length")) has_tool_calls
        ≡ ResponseClass.ok)
      ↔ ((strip text ≡ []) × (has_tool_calls ≡ true))
unfolding classify neutral_stop_reason
classify-cut py text has_tool_calls = elim (List-cases (strip text)) [
  | inl blank ↦ (λ h. (blank, ground (arith, blank, h)), λ p. ground (arith, p.0, p.1))
  | inr (c, s, shown) ↦ (
    λ h. absurd (classify_body-cut py (c ∷ s) (rw shown at h)),
    λ p. absurd (ground (arith, p.0, shown)),
  )
]
