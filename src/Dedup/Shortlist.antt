-- ===== src/Dedup/Shortlist.antt =====
-- The shortlist is bounded, leaves the alert itself out, and holds the best of the scored keys.
use dependabot_harness.Prelude.{
  ℕ, ◌≡◌, ◌↔◌, ◌⊎◌, true, false, String, List, [], ◌∷◌, length, ◌==◌, string_eq, In, min,
}
use dependabot_harness.Alert.{AlertRecord}
use dependabot_harness.Dedup.{InvertedIndex, Scores, scores_of, ranks_before, keys_of}

-- Every entry of the list comes after `e`.
abbrev Follow : String × ℕ → Scores → Type 0
Follow e [] = Unit
Follow e (x ∷ xs) = (ranks_before e x ≡ true) × Follow e xs

abbrev IsRanked : Scores → Type 0
IsRanked [] = Unit
IsRanked (x ∷ xs) = Follow x xs × IsRanked xs

-- A shortlist: the best of the scores, as many as fit, without the alert itself.
pub record IsShortlist (index : InvertedIndex) (alert : AlertRecord) (limit : ℕ)
    (keys : List String) : Type 0 where
  pub listed : Scores
  pub left : Scores
  pub shown : keys ≡ keys_of listed
  pub bounded : length keys ≡ min limit (length (scores_of index alert))
  pub complete : (e : String × ℕ) → In e (scores_of index alert) ↔ (In e listed ⊎ In e left)
  pub best : (e f : String × ℕ) → In e listed → In f left → ranks_before e f ≡ true
  pub others : (e : String × ℕ) → In e listed → (e.0 == alert.alert_key) ≡ false
