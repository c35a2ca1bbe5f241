-- ===== src/Models/Budget.antt =====
-- harness/models/budget.py with the ledger's queries of harness/db.py. Money is exact: rates are in
-- cents for a million tokens, costs and caps in ten-billionths of a dollar, so that the cache
-- multipliers 0.1 and 1.25 are whole numbers. (The program adds floats.) A negative rate, which the
-- configuration does not refuse, is not in the model.
pub mod Caps
use dependabot_harness.Prelude.{
  ℕ, ◌+◌, ◌*◌, Bool, true, false, not, ◌&&◌, String, Option, none, some, List, [], ◌∷◌, ◌++◌,
  is_some, ltb, ◌==◌, string_eq, Result, ok, err, filter, length, if◌then◌else◌,
}
use dependabot_harness.Prelude.Sums.{sum_where}
use dependabot_harness.Database.{Database, LedgerRow}

pub data BreachAction : Type 0 where
  queue_next_run fail warn : BreachAction

pub record Usage : Type 0 where
  pub tokens_in : ℕ
  pub tokens_out : ℕ
  pub cache_read_tokens : ℕ
  pub cache_write_tokens : ℕ

abbrev pub Rates : Type 0
Rates = ℕ × ℕ

-- `PRICING_USD_PER_MTOK`
unfoldable pub pricing : String → Option Rates
pricing model =
    if model == "claude-opus-5"
    then some (500, 2500)
    else if model == "claude-opus-4-8"
    then some (500, 2500)
    else if model == "claude-sonnet-5"
    then some (300, 1500)
    else if model == "claude-sonnet-4-6"
    then some (300, 1500)
    else if model == "claude-haiku-4-5"
    then some (100, 500)
    else if model == "claude-fable-5"
    then some (1000, 5000)
    else none

-- `rates or PRICING.get(model)`
unfoldable pub resolved_rates : String → Option Rates → Option Rates
resolved_rates model none = pricing model
resolved_rates model (some rates) = some rates

-- `price`
unfoldable pub price : String → Usage → Option Rates → ℕ
price model usage rates = elim (resolved_rates model rates) [
  | none ↦ 0
  | some (input_rate, output_rate) ↦
      usage.tokens_in * input_rate * 100
      + usage.cache_read_tokens * input_rate * 10
      + usage.cache_write_tokens * input_rate * 125
      + usage.tokens_out * output_rate * 100
]

unfoldable pub is_priced : String → Option Rates → Bool
is_priced model rates = is_some (resolved_rates model rates)

pub record BudgetConfig : Type 0 where
  pub per_run_usd : ℕ
  pub per_repo_usd : ℕ
  pub per_alert_usd : ℕ
  pub per_run_tokens : Option ℕ
  pub per_repo_tokens : Option ℕ
  pub per_alert_tokens : Option ℕ
  pub on_breach : BreachAction

-- `column=?` where the query is given a value.
abbrev matches : Option String → Option String → Bool
matches none found = true
matches (some wanted) none = false
matches (some wanted) (some found) = found == wanted

unfoldable pub in_scope : String → Option String → Option String → LedgerRow → Bool
in_scope run repo alert row =
    row.run_id == run && (matches repo (some row.repo) && matches alert row.alert_key)

-- `Database.spend` and `Database.tokens`
unfoldable pub spend : Database → String → Option String → Option String → ℕ
spend db run repo alert = sum_where (in_scope run repo alert) (λ row. row.cost_usd) db.ledger

unfoldable pub tokens : Database → String → Option String → Option String → ℕ
tokens db run repo alert =
    sum_where (in_scope run repo alert) (λ row. row.tokens_in + row.tokens_out) db.ledger

-- `Database.unpriced_calls`
unfoldable pub unpriced_calls : Database → String → ℕ
unpriced_calls db run = length (filter (λ row. row.run_id == run && not row.priced) db.ledger)

pub data CapScope : Type 0 where
  run_scope repo_scope alert_scope : CapScope
  run_tokens repo_tokens alert_tokens : CapScope

-- The first cap that is reached, in the order of `check`.
reached : ℕ → ℕ → Bool
reached spent cap = not (ltb spent cap)

over : ℕ → Option ℕ → Bool
unfolding reached
over spent none = false
over spent (some cap) = reached spent cap

first_reached : Bool → Bool → Bool → Bool → Bool → Bool → Option CapScope
first_reached run_usd repo_usd alert_usd run_count repo_count alert_count =
    if run_usd
    then some run_scope
    else if repo_usd
    then some repo_scope
    else if alert_usd
    then some alert_scope
    else if run_count
    then some run_tokens
    else if repo_count
    then some repo_tokens
    else if alert_count
    then some alert_tokens
    else none

unfoldable pub first_breach :
    BudgetConfig → Database → String → String → Option String → Option CapScope
unfolding reached over first_reached
first_breach cfg db run repo alert =
    first_reached (reached (spend db run none none) cfg.per_run_usd)
      (reached (spend db run (some repo) none) cfg.per_repo_usd)
      (is_some alert && reached (spend db run none alert) cfg.per_alert_usd)
      (over (tokens db run none none) cfg.per_run_tokens)
      (over (tokens db run (some repo) none) cfg.per_repo_tokens)
      (is_some alert && over (tokens db run none alert) cfg.per_alert_tokens)

pub record BudgetDecision : Type 0 where
  pub allowed : Bool
  pub scope : Option CapScope
  pub action : BreachAction

-- `_breach`: an exception where the policy is to fail.
breach : BreachAction → CapScope → Result CapScope BudgetDecision
breach fail scope = err scope
breach queue_next_run scope =
    ok (record { allowed = false; scope = some scope; action = queue_next_run })
breach warn scope = ok (record { allowed = false; scope = some scope; action = warn })

-- `BudgetLedger.check`
unfoldable pub check :
    BudgetConfig → Database → String → String → Option String → Result CapScope BudgetDecision
unfolding breach
check cfg db run repo alert = elim (first_breach cfg db run repo alert) [
  | none ↦ ok (record { allowed = true; scope = none; action = cfg.on_breach })
  | some scope ↦ breach cfg.on_breach scope
]

-- `Database.record_cost`
abbrev pub record_cost : LedgerRow → Database → Database
record_cost row db = record db { ledger = db.ledger ++ row ∷ [] }

abbrev pub ledger_row :
    String → String → String → String → Usage → Option String → Option Rates → LedgerRow
ledger_row run repo stage model usage alert rates = record {
  run_id = run;
  repo = repo;
  alert_key = alert;
  stage = stage;
  cost_usd = price model usage rates;
  priced = is_priced model rates;
  tokens_in = usage.tokens_in + usage.cache_read_tokens + usage.cache_write_tokens;
  tokens_out = usage.tokens_out;
}

-- `BudgetLedger.record`
unfoldable pub record_call :
    String → String → String → String → Usage → Option String → Option Rates → Database → Database
record_call run repo stage model usage alert rates db =
    record_cost (ledger_row run repo stage model usage alert rates) db
