-- ===== src/Stages/Recon/Calls.antt =====
-- What a model call of the recon stage leaves on the database.
use dependabot_harness.Prelude.{ℕ, ◌≡◌, sym, ◌∙◌, String, List, ◌++◌, Text, string_eq}
use dependabot_harness.Database.{Database, LedgerRow}
use dependabot_harness.Models.Errors.{Python}
use dependabot_harness.Models.Client.Messages.{Message}
use dependabot_harness.Models.Client.{
  ModelConfig, CallSite, Answer, ModelRequest, Completion, context_ceiling_exceeded, ended,
  clamp_max_tokens,
}
use dependabot_harness.Models.Client.Ledgered.{
  IsAccounted, rows, with_rows, with_rows_nil, complete-IsAccounted,
}
use dependabot_harness.Stages.Recon.{ReconStage, request_of, call_site, call}

-- The rows of a call's first answers.
abbrev pub call_rows : ReconStage → String → Text → ℕ → List LedgerRow
call_rows stage repo inventory k =
    rows stage.python stage.model (call_site stage repo)
      (stage.provider (clamp_max_tokens stage.model (request_of stage inventory)) stage.model.model)
      0 k

-- A call changes the ledger at most.
pub accounted_keeps :
    (py : Python) (cfg : ModelConfig) (site : CallSite) (dumped : Message → ℕ)
    (answers : ℕ → Answer) (attempts : ℕ) (sent : ModelRequest) (db : Database)
    (c : Completion × Database)
    → IsAccounted py cfg site dumped answers attempts sent db c
    → (k : ℕ) × (c.1 ≡ with_rows py cfg site db (rows py cfg site answers 0 k))
accounted_keeps py cfg site dumped answers attempts sent db (context_ceiling_exceeded e, after)
      (above, same) =
    (0, same ∙ sym (with_rows_nil py cfg site db))
accounted_keeps py cfg site dumped answers attempts sent db (ended end, after)
      (fits, told, usable, same) =
    (_, same)

pub call_keeps :
    (stage : ReconStage) (repo : String) (inventory : Text) (db : Database)
    → (k : ℕ) × ((call stage repo inventory db).1
        ≡ record db { ledger = db.ledger ++ call_rows stage repo inventory k })
call_keeps stage repo inventory db =
    accounted_keeps stage.python stage.model (call_site stage repo) stage.dumped _
      stage.max_attempts _ db (call stage repo inventory db)
      (complete-IsAccounted stage.python stage.model (call_site stage repo) stage.dumped
        stage.provider stage.max_attempts (request_of stage inventory) db).1
