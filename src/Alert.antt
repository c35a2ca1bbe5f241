-- ===== src/Alert.antt =====
-- `AlertRecord` of harness/db.py: one alert, enriched. Texts that the program takes apart are
-- lists of code points, the others native strings; scores are whole ten-thousandths, since the
-- code only compares them with one another and with constants of at most four decimals.
use dependabot_harness.Prelude.{
  ℕ, Bool, true, false, String, Option, none, some, List, [], ◌∷◌, Text,
}

abbrev pub Score : Type 0
Score = ℕ

pub data State : Type 0 where
  open_state fixed_state dismissed_state : State

pub record AlertRecord : Type 0 where
  pub alert_key : String
  pub repo : String
  pub ghsa_id : String
  pub purl : Text
  pub ecosystem : Text
  pub manifest_path : Text
  pub gh_alert_num : ℕ
  pub first_seen_at : ℕ
  pub last_seen_at : ℕ
  pub state : State
  pub cve_id : Option String
  pub resolved_ver : Option Text
  pub patched_ver : Option Text
  pub dep_scope : Option String
  pub is_direct : Option Bool
  pub cvss_score : Option Score
  pub severity : Option String
  pub epss_score : Option Score
  pub in_kev : Option Bool
  pub symbols : Option (List String)

-- `bool(self.symbols)`: an empty list is as good as none.
unfoldable pub symbols_known : AlertRecord → Bool
symbols_known a = elim a.symbols [ none ↦ false | some l ↦ elim l [ [] ↦ false | _ ∷ _ ↦ true ] ]
