-- ===== src/Database/Alerts.antt =====
-- The alerts table of harness/db.py: `upsert_alert` keeps the time at which an alert was first seen.
use dependabot_harness.Prelude.{
  ◌≡◌, Bool, false, String, Option, none, some, ◌==◌, string_eq, eq_iff, beq_refl, arith,
}
use dependabot_harness.Prelude.Tables.{find, upsert, find-upsert, find-upsert_ne}
use dependabot_harness.Alert.{AlertRecord}
use dependabot_harness.Database.{Database}

abbrev pub of_key : String → AlertRecord → Bool
of_key key a = a.alert_key == key

-- Every column but `first_seen_at` (and the key, which agrees) is overwritten.
abbrev pub refresh : AlertRecord → AlertRecord → AlertRecord
refresh alert old = record alert { first_seen_at = old.first_seen_at }

-- `upsert_alert`
unfoldable pub upsert_alert : AlertRecord → Database → Database
upsert_alert alert db = record db {
  alerts = upsert (of_key alert.alert_key) (refresh alert) alert db.alerts;
}

-- `get_alert`
unfoldable pub get_alert : Database → String → Option AlertRecord
get_alert db key = find (of_key key) db.alerts

-- What `get_alert` shows of the alert that was put, and of the others.
pub get_alert-upsert_alert :
    (alert : AlertRecord) (key : String) (db : Database)
    → (get_alert (upsert_alert alert db) alert.alert_key
        ≡ some
            (elim (get_alert db alert.alert_key) [ none ↦ alert | some old ↦ refresh alert old ]))
      × ((alert.alert_key == key) ≡ false
          → get_alert (upsert_alert alert db) key ≡ get_alert db key)
unfolding get_alert upsert_alert
get_alert-upsert_alert alert key db = (
  find-upsert (of_key alert.alert_key) (refresh alert) alert db.alerts (beq_refl alert.alert_key)
      (λ x h. beq_refl alert.alert_key),
  λ differ.
      find-upsert_ne (of_key alert.alert_key) (of_key key) (refresh alert) alert db.alerts differ
        (λ x h. ground (
          arith,
          eq_iff x.alert_key alert.alert_key,
          eq_iff x.alert_key key,
          eq_iff alert.alert_key key,
        ))
        (λ x h. differ),
)
