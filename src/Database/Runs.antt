-- ===== src/Database/Runs.antt =====
-- The runs, the wishlist and the counts of a stage, in harness/db.py.
use dependabot_harness.Prelude.{
  ℕ, Bool, not, String, Option, none, some, List, [], ◌∷◌, ◌++◌, ltb, is_some, filter, ◌==◌,
  string_eq, if◌then◌else◌,
}
use dependabot_harness.Prelude.Tables.{find, upsert}
use dependabot_harness.Database.{Database, RunRow, WishRow}

abbrev of_run : String → RunRow → Bool
of_run run row = row.run_id == run

abbrev running : RunRow → RunRow
running row = record row { status = "running" }

-- `start_run`
unfoldable pub start_run : String → String → ℕ → Database → Database
start_run run hash now db =
    let fresh : RunRow = record {
      run_id = run;
      started_at = now;
      finished_at = none;
      status = "running";
      config_hash = hash;
    } in
    record db { runs = upsert (of_run run) running fresh db.runs }

abbrev finished : String → String → ℕ → RunRow → RunRow
finished run status now row =
    if row.run_id == run then record row { status = status; finished_at = some now } else row

unfoldable pub update_all : (RunRow → RunRow) → List RunRow → List RunRow
update_all f [] = []
update_all f (row ∷ rows) = f row ∷ update_all f rows

-- `finish_run`
unfoldable pub finish_run : String → String → ℕ → Database → Database
unfolding update_all
finish_run run status now db = record db { runs = update_all (finished run status now) db.runs }

-- `get_run`
unfoldable pub get_run : Database → String → Option RunRow
get_run db run = find (of_run run) db.runs

unfoldable pub last_started : Option RunRow → List RunRow → Option RunRow
last_started best [] = best
last_started none (row ∷ rows) = last_started (some row) rows
last_started (some best) (row ∷ rows) =
    last_started (some (if ltb row.started_at best.started_at then best else row)) rows

-- `latest_run`: ORDER BY started_at DESC, rowid DESC LIMIT 1
unfoldable pub latest_run : Database → Option RunRow
unfolding last_started
latest_run db = last_started none db.runs

-- `add_wish`
unfoldable pub add_wish :
    String → String → String → String → Option String → ℕ → Database → Database
add_wish run repo need category key now db =
    let wish : WishRow = record {
      run_id = run;
      alert_key = key;
      repo = repo;
      need = need;
      category = category;
      created_at = now;
      resolved_at = none;
    } in
    record db { wishlist = db.wishlist ++ wish ∷ [] }

-- `open_wishes`, without its order.
unfoldable pub open_wishes : Database → List WishRow
open_wishes db = filter (λ w. not (is_some w.resolved_at)) db.wishlist
