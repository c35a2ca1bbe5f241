-- ===== src/Tests/Store.antt =====
-- The database operations at concrete rows.
use dependabot_harness.Prelude.{
  ℕ, ◌+◌, ◌≡◌, refl, Bool, true, false, String, Option, none, some, List, [], ◌∷◌, arith, ◌==◌,
  string_eq,
}
use dependabot_harness.Database.{
  Database, StageWrite, done, no_rule_matched, stage_write, verdict_row, put_verdict,
  latest_verdict,
}
use dependabot_harness.Database.Verdicts.{put_verdict_lem}
use dependabot_harness.Tests.Samples.{cleared_doc, empty_db}

abbrev first_db : Database
first_db = put_verdict "k1" "r1" cleared_doc none none none 5 empty_db

abbrev a_write : StageWrite
a_write = stage_write done (some no_rule_matched)

put_verdict_lem_example :
    let after = put_verdict "k1" "r2" cleared_doc (some true) none none 9 first_db in
    (latest_verdict after "k1" ≡ some (verdict_row "k1" "r2" cleared_doc (some true) none none 9))
    × ((other : String)
        → ("k1" == other) ≡ false
        → latest_verdict after other ≡ latest_verdict first_db other)
unfolding put_verdict verdict_row dependabot_harness.Prelude.Tables.upsert
put_verdict_lem_example =
    put_verdict_lem "k1" "r2" cleared_doc (some true) none none 9 first_db
      ((λ same. (omega arith, λ other. omega arith)), tt)
