-- ===== src/Tests/Money.antt =====
-- The budget ledger at concrete calls.
use dependabot_harness.Prelude.{◌≡◌, refl, ◌↔◌, true, none, some, arith, ok}
use dependabot_harness.Database.{Database}
use dependabot_harness.Models.Budget.{
  Usage, BudgetConfig, queue_next_run, BudgetDecision, check, record_call, ledger_row, in_scope,
  spend, tokens, price, is_priced,
}
use dependabot_harness.Models.Budget.Caps.{IsWithin, HasRoom, total, check_iff, check-record_call}
use dependabot_harness.Tests.Samples.{empty_db}

abbrev one_call : Usage
one_call = record {
  tokens_in = 1000;
  tokens_out = 200;
  cache_read_tokens = 500;
  cache_write_tokens = 0;
}

abbrev sample_caps : BudgetConfig
sample_caps = record {
  per_run_usd = 50000000000;
  per_repo_usd = 20000000000;
  per_alert_usd = 1000000000;
  per_run_tokens = none;
  per_repo_tokens = some 100000;
  per_alert_tokens = none;
  on_breach = queue_next_run;
}

-- One thousand tokens at 3 dollars a million, five hundred from the cache, and two hundred at 15.
sample_price : price "claude-sonnet-5" one_call none ≡ 61500000
unfolding price dependabot_harness.Models.Budget.resolved_rates
    dependabot_harness.Models.Budget.pricing
sample_price = refl

check_iff_example :
    ((d : BudgetDecision) × (check sample_caps empty_db "r1" "org/app" (some "k1") ≡ ok d)
      × (d.allowed ≡ true))
    ↔ IsWithin sample_caps empty_db "r1" "org/app" (some "k1")
check_iff_example = check_iff sample_caps empty_db "r1" "org/app" (some "k1")

abbrev one_recorded : Database
one_recorded =
    record_call "r1" "org/app" "judgment" "claude-sonnet-5" one_call (some "k1") none empty_db

check-record_call_example :
    (((d : BudgetDecision) × (check sample_caps one_recorded "r1" "org/app" (some "k1") ≡ ok d)
        × (d.allowed ≡ true))
      ↔ HasRoom sample_caps empty_db "r1" "org/app"
          (some "k1")
          (price "claude-sonnet-5" one_call none)
          (total one_call))
    × (check sample_caps one_recorded "r2" "org/app" none
        ≡ check sample_caps empty_db "r2" "org/app" none)
check-record_call_example =
    check-record_call "r1" "org/app" "judgment" "claude-sonnet-5" one_call none empty_db sample_caps
      (some "k1") "r2" "org/app" none refl

-- The call is allowed after the one that is recorded.
room_left :
    HasRoom sample_caps empty_db "r1" "org/app"
      (some "k1")
      (price "claude-sonnet-5" one_call none)
      (total one_call)
unfolding spend tokens price in_scope dependabot_harness.Models.Budget.resolved_rates
    dependabot_harness.Models.Budget.pricing
room_left = record {
  run_usd = omega arith;
  repo_usd = omega arith;
  run_count = tt;
  repo_count = omega arith;
  for_alert = (omega arith, tt);
}
