-- ===== src/Models/Budget/Caps.antt =====
-- The caps: what an allowed call means, that a breach stays, and what a recorded call adds.
use dependabot_harness.Prelude.{
  ℕ, ◌+◌, ◌<◌, ◌≡◌, refl, ◌↔◌, Bool, true, false, String, Option, none, some, [], ◌∷◌, arith, ok,
  ◌==◌, string_eq, beq_refl, if◌then◌else◌, Option-cases, inl, inr, ◌⊎◌,
}
use dependabot_harness.Prelude.Sums.{sum_where-append}
use dependabot_harness.Database.{Database}
use dependabot_harness.Models.Budget.{
  Usage, Rates, price, is_priced, resolved_rates, BudgetConfig, BudgetDecision, BreachAction, fail,
  queue_next_run, warn, CapScope, in_scope, spend, tokens, reached, over, first_reached,
  first_breach, breach, check, record_call, ledger_row,
}

-- Under a cap on tokens, where there is one.
abbrev pub Under : ℕ → Option ℕ → Type 0
Under spent none = Unit
Under spent (some cap) = spent < cap

-- Under the caps of an alert, where the call is for one.
abbrev pub AlertUnder : BudgetConfig → Database → String → Option String → Type 0
AlertUnder cfg db run none = Unit
AlertUnder cfg db run (some key) =
    (spend db run none (some key) < cfg.per_alert_usd)
    × Under (tokens db run none (some key)) cfg.per_alert_tokens

pub record IsWithin (cfg : BudgetConfig) (db : Database) (run repo : String) (alert : Option String)
    : Type 0 where
  pub run_usd : spend db run none none < cfg.per_run_usd
  pub repo_usd : spend db run (some repo) none < cfg.per_repo_usd
  pub run_count : Under (tokens db run none none) cfg.per_run_tokens
  pub repo_count : Under (tokens db run (some repo) none) cfg.per_repo_tokens
  pub for_alert : AlertUnder cfg db run alert

over_iff : (spent : ℕ) (cap : Option ℕ) → (over spent cap ≡ false) ↔ Under spent cap
unfolding over reached
over_iff spent none = (λ h. tt, λ h. refl)
over_iff spent (some cap) = (λ h. ground arith, λ h. ground arith)

reached_iff : (spent cap : ℕ) → (reached spent cap ≡ false) ↔ (spent < cap)
unfolding reached
reached_iff spent cap = (λ h. ground arith, λ h. ground arith)

-- The six tests of `check`, in order.
first_reached-eq-none :
    (a b c d e f : Bool)
    → (first_reached a b c d e f ≡ none)
      ↔ ((a ≡ false) × (b ≡ false) × (c ≡ false) × (d ≡ false) × (e ≡ false) × (f ≡ false))
unfolding first_reached
first_reached-eq-none a b c d e f = (λ h. ground arith, λ h. ground arith)

first_breach_iff :
    (cfg : BudgetConfig) (db : Database) (run repo : String) (alert : Option String)
    → (first_breach cfg db run repo alert ≡ none) ↔ IsWithin cfg db run repo alert
unfolding first_breach
first_breach_iff cfg db run repo none = (
  λ h.
      let (a, b, c, d, e, f) = (first_reached-eq-none _ _ false _ _ false).0 h in
      record {
        run_usd = (reached_iff _ _).0 a;
        repo_usd = (reached_iff _ _).0 b;
        run_count = (over_iff _ _).0 d;
        repo_count = (over_iff _ _).0 e;
        for_alert = tt;
      },
  λ w. (first_reached-eq-none _ _ _ _ _ _).1 (
    (reached_iff _ _).1 w.run_usd,
    (reached_iff _ _).1 w.repo_usd,
    refl,
    (over_iff _ _).1 w.run_count,
    (over_iff _ _).1 w.repo_count,
    refl,
  ),
)
first_breach_iff cfg db run repo (some key) = (
  λ h.
      let (a, b, c, d, e, f) = (first_reached-eq-none _ _ _ _ _ _).0 h in
      record {
        run_usd = (reached_iff _ _).0 a;
        repo_usd = (reached_iff _ _).0 b;
        run_count = (over_iff _ _).0 d;
        repo_count = (over_iff _ _).0 e;
        for_alert = ((reached_iff _ _).0 c, (over_iff _ _).0 f);
      },
  λ w. (first_reached-eq-none _ _ _ _ _ _).1 (
    (reached_iff _ _).1 w.run_usd,
    (reached_iff _ _).1 w.repo_usd,
    (reached_iff _ _).1 w.for_alert.0,
    (over_iff _ _).1 w.run_count,
    (over_iff _ _).1 w.repo_count,
    (over_iff _ _).1 w.for_alert.1,
  ),
)

refused_breach :
    (action : BreachAction) (scope : CapScope) (d : BudgetDecision)
    → breach action scope ≡ ok d
    → d.allowed ≡ false
unfolding breach
refused_breach fail scope d h = ground (arith, h)
refused_breach queue_next_run scope d h = ground (arith, h)
refused_breach warn scope d h = ground (arith, h)

-- A call is allowed exactly when every cap that applies is above what is spent: the run's and the
-- repository's in dollars and tokens, and the alert's where the call is for one.
pub check_iff :
    (cfg : BudgetConfig) (db : Database) (run repo : String) (alert : Option String)
    → ((d : BudgetDecision) × (check cfg db run repo alert ≡ ok d) × (d.allowed ≡ true))
      ↔ IsWithin cfg db run repo alert
unfolding check
check_iff cfg db run repo alert = (
  λ (d, answered, allowed). elim (Option-cases (first_breach cfg db run repo alert)) [
    | inl within ↦ (first_breach_iff cfg db run repo alert).0 within
    | inr (scope, found) ↦
        let refused = refused_breach cfg.on_breach scope d (rw (check, found) at answered) in
        absurd (ground arith)
  ],
  λ w.
      let allowing : BudgetDecision = record {
        allowed = true;
        scope = none;
        action = cfg.on_breach;
      } in
      (allowing, rw (check, (first_breach_iff cfg db run repo alert).1 w) refl, refl),
)

-- A recorded call counts once, at its price, in the scopes that it is in, and its tokens count also
-- where the price is unknown and the cost is a placeholder of zero.
pub record_call_lem :
    (run repo stage model : String) (usage : Usage) (alert : Option String) (rates : Option Rates)
    (db : Database) (run' : String) (repo' alert' : Option String)
    → let after = record_call run repo stage model usage alert rates db in
      let row = ledger_row run repo stage model usage alert rates in
      (spend after run' repo' alert'
        ≡ spend db run' repo' alert'
          + (if in_scope run' repo' alert' row then price model usage rates else 0))
      × (tokens after run' repo' alert'
          ≡ tokens db run' repo' alert'
            + (if in_scope run' repo' alert' row
                then usage.tokens_in + usage.cache_read_tokens + usage.cache_write_tokens
                  + usage.tokens_out
                else 0))
      × ((is_priced model rates ≡ true) ⊎ (price model usage rates ≡ 0))
unfolding record_call spend tokens price is_priced
record_call_lem run repo stage model usage alert rates db run' repo' alert' =
    let row = ledger_row run repo stage model usage alert rates in
    (
      omega (
        arith,
        sum_where-append (in_scope run' repo' alert') (λ r. r.cost_usd) db.ledger (row ∷ []),
      ),
      omega (
        arith,
        sum_where-append (in_scope run' repo' alert') (λ r. r.tokens_in + r.tokens_out) db.ledger
            (row ∷ []),
      ),
      elim (Option-cases (resolved_rates model rates)) [
        | inl unknown ↦ inr (rw (price, unknown) refl)
        | inr (found, known) ↦ inl (rw (is_priced, known) refl)
      ],
    )

abbrev pub AlertRoom : BudgetConfig → Database → String → Option String → ℕ → ℕ → Type 0
AlertRoom cfg db run none usd count = Unit
AlertRoom cfg db run (some key) usd count =
    (spend db run none (some key) + usd < cfg.per_alert_usd)
    × Under (tokens db run none (some key) + count) cfg.per_alert_tokens

-- Room for an amount and a count of tokens under each cap that applies to a call.
pub record HasRoom (cfg : BudgetConfig) (db : Database) (run repo : String) (alert : Option String)
    (usd count : ℕ) : Type 0 where
  pub run_usd : spend db run none none + usd < cfg.per_run_usd
  pub repo_usd : spend db run (some repo) none + usd < cfg.per_repo_usd
  pub run_count : Under (tokens db run none none + count) cfg.per_run_tokens
  pub repo_count : Under (tokens db run (some repo) none + count) cfg.per_repo_tokens
  pub for_alert : AlertRoom cfg db run alert usd count

abbrev pub total : Usage → ℕ
total usage =
    usage.tokens_in + usage.cache_read_tokens + usage.cache_write_tokens + usage.tokens_out

-- A recorded call within a scope adds its price and its tokens to it.
counted :
    (run repo stage model : String) (usage : Usage) (alert : Option String) (rates : Option Rates)
    (db : Database) (repo' alert' : Option String)
    → in_scope run repo' alert' (ledger_row run repo stage model usage alert rates) ≡ true
    → let after = record_call run repo stage model usage alert rates db in
      (spend after run repo' alert' ≡ spend db run repo' alert' + price model usage rates)
      × (tokens after run repo' alert' ≡ tokens db run repo' alert' + total usage)
counted run repo stage model usage alert rates db repo' alert' within =
    let (s, t, u) = record_call_lem run repo stage model usage alert rates db run repo' alert' in
    (rw within at s, rw within at t)

module _ (run repo stage model : String) (usage : Usage) (rates : Option Rates)
    (db : Database) where
  -- The ledger after a recorded call, for an alert or for none.
  abbrev after : Option String → Database
  after alert = record_call run repo stage model usage alert rates db

  -- The call is in the scopes of its run and of its repository.
  in_run :
      (alert : Option String)
      → in_scope run none none (ledger_row run repo stage model usage alert rates) ≡ true
  unfolding in_scope
  in_run alert = ground (arith, beq_refl run)

  in_repo :
      (alert : Option String)
      → in_scope run (some repo) none (ledger_row run repo stage model usage alert rates) ≡ true
  unfolding in_scope
  in_repo alert = ground (arith, beq_refl run, beq_refl repo)

  in_alert :
      (key : String)
      → in_scope run none (some key) (ledger_row run repo stage model usage (some key) rates) ≡ true
  unfolding in_scope
  in_alert key = ground (arith, beq_refl run, beq_refl key)

  alert_room :
      (cfg : BudgetConfig) (alert : Option String)
      → AlertUnder cfg (after alert) run alert
        ↔ AlertRoom cfg db run alert (price model usage rates) (total usage)
  alert_room cfg none = (λ u. tt, λ u. tt)
  alert_room cfg (some key) =
      let (s, t) =
        counted run repo stage model usage (some key) rates db none (some key) (in_alert key) in
      (λ (usd, count). (rw s at usd, rw t at count), λ (usd, count). (rw s usd, rw t count))

  IsWithin-HasRoom :
      (cfg : BudgetConfig) (alert : Option String)
      → IsWithin cfg (after alert) run repo alert
        ↔ HasRoom cfg db run repo alert (price model usage rates) (total usage)
  IsWithin-HasRoom cfg alert =
      let (s, t) = counted run repo stage model usage alert rates db none none (in_run alert) in
      let (s', t') =
        counted run repo stage model usage alert rates db (some repo) none (in_repo alert) in
      let (into, out) = alert_room cfg alert in
      (
        λ w. record {
          run_usd = rw s at w.run_usd;
          repo_usd = rw s' at w.repo_usd;
          run_count = rw t at w.run_count;
          repo_count = rw t' at w.repo_count;
          for_alert = into w.for_alert;
        },
        λ h. record {
          run_usd = rw s h.run_usd;
          repo_usd = rw s' h.repo_usd;
          run_count = rw t h.run_count;
          repo_count = rw t' h.repo_count;
          for_alert = out h.for_alert;
        },
      )

  outside_scope :
      (alert : Option String) (run' : String) (repo' alert' : Option String)
      → (run == run') ≡ false
      → in_scope run' repo' alert' (ledger_row run repo stage model usage alert rates) ≡ false
  unfolding in_scope
  outside_scope alert run' repo' alert' other = ground (arith, other)

  apart :
      (alert : Option String) (run' : String) (repo' alert' : Option String)
      → (run == run') ≡ false
      → (spend (after alert) run' repo' alert' ≡ spend db run' repo' alert')
        × (tokens (after alert) run' repo' alert' ≡ tokens db run' repo' alert')
  apart alert run' repo' alert' other =
      let outside = outside_scope alert run' repo' alert' other in
      let (s, t, u) = record_call_lem run repo stage model usage alert rates db run' repo' alert' in
      (omega (arith, rw outside at s), omega (arith, rw outside at t))

  breach_apart :
      (cfg : BudgetConfig) (alert : Option String) (run' repo' : String) (alert' : Option String)
      → (run == run') ≡ false
      → first_breach cfg (after alert) run' repo' alert' ≡ first_breach cfg db run' repo' alert'
  unfolding first_breach
  breach_apart cfg alert run' repo' alert' other =
      let (s, t) = apart alert run' none none other in
      let (s', t') = apart alert run' (some repo') none other in
      let (s'', t'') = apart alert run' none alert' other in rw (s, s', s'', t, t', t'') refl

  -- After a recorded call the next one for the same run, repository and alert is allowed exactly
  -- when each cap that applies had room for the recorded call and is not reached by it: its price in
  -- dollars and all its tokens, those of the cache included. The calls of another run are decided as
  -- before.
  pub check-record_call :
      (cfg : BudgetConfig) (alert : Option String) (run' repo' : String) (alert' : Option String)
      → (run == run') ≡ false
      → (((d : BudgetDecision) × (check cfg (after alert) run repo alert ≡ ok d)
            × (d.allowed ≡ true))
          ↔ HasRoom cfg db run repo alert (price model usage rates) (total usage))
        × (check cfg (after alert) run' repo' alert' ≡ check cfg db run' repo' alert')
  unfolding check
  check-record_call cfg alert run' repo' alert' other =
      let (into, out) = check_iff cfg (after alert) run repo alert in
      let (into', out') = IsWithin-HasRoom cfg alert in
      (
        (λ d. into' (into d), λ h. out (out' h)),
        rw (check, breach_apart cfg alert run' repo' alert' other) refl,
      )
