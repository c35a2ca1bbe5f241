-- ===== src/Models/Client/Ledgered.antt =====
-- What `complete` leaves on the ledger, and how it ends.
use mathlib.Core.List.{append-nil, append_assoc}
use dependabot_harness.Prelude.{
  ℕ, zero, suc, ◌+◌, ◌≤◌, ◌<◌, ◌≡◌, refl, sym, ap, ◌∙◌, true, some, List, [], ◌∷◌, ◌++◌, ltb, arith,
  Bool-cases, inl, inr, if◌then◌else◌,
}
use dependabot_harness.Database.{Database, LedgerRow}
use dependabot_harness.Models.Budget.{ledger_row, record_call}
use dependabot_harness.Models.Errors.{ResponseClass, Python, is_retryable, is_usable}
use dependabot_harness.Models.Client.Messages.{Message}
use dependabot_harness.Models.Client.{
  ModelRequest, ModelResponse, ModelConfig, Answer, answered, model_error, threw, Provider,
  estimated_tokens, clamp_max_tokens, classify_provider_exception, classified, CallSite, once, ask,
  Completion, context_ceiling_exceeded, ended, complete,
}
use dependabot_harness.Util.Retry.{
  Attempt, returned, raised, Ending, value, reraised, exhausted, Describes, Attempt-cases,
  attempts_from, retry_with_backoff, retry_with_backoff_lem,
}

-- The number of calls that an ending tells of.
abbrev pub calls : Ending ResponseClass ModelResponse → ℕ
calls (value n r) = n
calls (reraised n kind) = n
calls (exhausted n) = n

-- Only a usable response is returned.
abbrev pub IsUsable : Ending ResponseClass ModelResponse → Type 0
IsUsable (value n r) = is_usable r.classification ≡ true
IsUsable _ = Unit

clamp_max_tokens_le :
    (cfg : ModelConfig) (request : ModelRequest) (ceiling : ℕ)
    → cfg.max_output_tokens ≡ some ceiling
    → (clamp_max_tokens cfg request).max_tokens ≤ ceiling
unfolding clamp_max_tokens
clamp_max_tokens_le cfg request ceiling h = ground (arith, h)

module _ (py : Python) (cfg : ModelConfig) (site : CallSite) where
  -- How a call ends, without its effect on the ledger.
  abbrev pub outcome_of : Answer → Attempt ResponseClass ModelResponse
  outcome_of (model_error kind) = raised kind
  outcome_of (threw exc) = raised (classify_provider_exception exc)
  outcome_of (answered raw) =
      let response = classified py raw in
      if is_usable response.classification
      then returned response
      else raised response.classification

  -- The row of an answered call, usable or not.
  abbrev pub row_of : Answer → List LedgerRow
  row_of (answered r) =
      ledger_row site.run_id site.repo site.stage cfg.model r.usage site.alert_key cfg.pricing ∷ []
  row_of _ = []

  abbrev pub rows : (ℕ → Answer) → ℕ → ℕ → List LedgerRow
  rows answers n zero = []
  rows answers n (suc k) = row_of (answers n) ++ rows answers (n + 1) k

  abbrev pub with_rows : Database → List LedgerRow → Database
  with_rows db found = record db { ledger = db.ledger ++ found }

  abbrev with_rows_of : Database → List LedgerRow → Database
  with_rows_of db found = record db { ledger = found }

  pub with_rows_nil : (db : Database) → with_rows db [] ≡ db
  with_rows_nil db = ap (with_rows_of db) (append-nil db.ledger)

  with_rows_append :
      (db : Database) (a b : List LedgerRow) → with_rows (with_rows db a) b ≡ with_rows db (a ++ b)
  with_rows_append db a b = ap (with_rows_of db) (append_assoc db.ledger a b)

  once_lem :
      (a : Answer) (db : Database) → once py cfg site a db ≡ (outcome_of a, with_rows db (row_of a))
  unfolding once record_call
  once_lem (model_error kind) db = ap (λ d. (raised kind, d)) (sym (with_rows_nil db))
  once_lem (threw exc) db =
      ap (λ d. (raised (classify_provider_exception exc), d)) (sym (with_rows_nil db))
  once_lem (answered raw) db = elim (Bool-cases (is_usable (classified py raw).classification)) [
    | inl good ↦ rw (once, good) refl
    | inr bad ↦ rw (once, bad) refl
  ]

  once_attempt : (a : Answer) (db : Database) → (once py cfg site a db).0 ≡ outcome_of a
  once_attempt a db = ap (λ p. p.0) (once_lem a db)

  once_after : (a : Answer) (db : Database) → (once py cfg site a db).1 ≡ with_rows db (row_of a)
  once_after a db = ap (λ p. p.1) (once_lem a db)

  outcome_of-IsUsable :
      (a : Answer) (r : ModelResponse)
      → outcome_of a ≡ returned r
      → is_usable r.classification ≡ true
  outcome_of-IsUsable (model_error kind) r h = ground (arith, h)
  outcome_of-IsUsable (threw exc) r h = ground (arith, h)
  outcome_of-IsUsable (answered raw) r h =
      elim (Bool-cases (is_usable (classified py raw).classification)) [
        | inl good ↦ ground (arith, h, good)
        | inr bad ↦ ground (arith, h, bad)
      ]

  -- The loop on the database ends as the retry loop does, and adds the rows of its calls.
  ask_lem :
      (answers : ℕ → Answer) (n left : ℕ) (db : Database)
      → let end = attempts_from is_retryable (λ i. outcome_of (answers i)) n left in
        (k : ℕ) × (calls end ≡ n + k)
        × (ask py cfg site answers n left db ≡ (end, with_rows db (rows answers n k)))
        × IsUsable end
  unfolding ask attempts_from
  ask_lem answers n zero db =
      (0, omega arith, ap (λ d. (exhausted n, d)) (sym (with_rows_nil db)), tt)
  ask_lem answers n (suc left) db =
      let a = answers n in
      let fn = λ (i : ℕ). outcome_of (answers i) in
      let one : with_rows db (row_of a) ≡ with_rows db (rows answers n 1) =
        ap (with_rows db) (sym (append-nil (row_of a))) in
      elim (Attempt-cases (outcome_of a)) [
        | inl (r, done) ↦
            rw (attempts_from, done)
              (
                1,
                refl,
                rw (ask, once_attempt a db, done, once_after a db)
                    (ap (λ d. (value (n + 1) r, d)) one),
                outcome_of-IsUsable a r done,
              )
        | inr (inl (e, thrown)) ↦
            rw (attempts_from, thrown)
              (
                1,
                refl,
                rw (ask, once_attempt a db, thrown, once_after a db)
                    (ap (λ d. (reraised (n + 1) e, d)) one),
                tt,
              )
        | inr (inr (e, thrown)) ↦ elim (Bool-cases (is_retryable e)) [
          | inr final ↦
              rw (attempts_from, thrown, final)
                (
                  1,
                  refl,
                  rw (ask, once_attempt a db, thrown, final, once_after a db)
                      (ap (λ d. (reraised (n + 1) e, d)) one),
                  tt,
                )
          | inl again ↦
              let (k, counted, same, usable) =
                ask_lem answers (n + 1) left (with_rows db (row_of a)) in
              rw (attempts_from, thrown, again)
                (
                  suc k,
                  omega (arith, counted),
                  rw (ask, once_attempt a db, thrown, again, once_after a db)
                      (same
                        ∙ ap (λ d. (attempts_from is_retryable fn (n + 1) left, d))
                            (with_rows_append db (row_of a) (rows answers (n + 1) k))),
                  usable,
                )
        ]
      ]

  -- What `complete` with a request does, where the provider's calls with the request that it is sent
  -- do what `answers` says.
  abbrev pub IsAccounted :
      (Message → ℕ) → (ℕ → Answer) → ℕ → ModelRequest → Database → Completion × Database → Type 0
  IsAccounted dumped answers max_attempts sent db (context_ceiling_exceeded estimated, after) =
      (cfg.max_context_tokens < estimated_tokens dumped sent) × (after ≡ db)
  IsAccounted dumped answers max_attempts sent db (ended end, after) =
      (estimated_tokens dumped sent ≤ cfg.max_context_tokens)
      × Describes is_retryable (λ n. outcome_of (answers n)) 0 max_attempts end
      × IsUsable end
      × (after ≡ with_rows db (rows answers 0 (calls end)))

  -- A request is sent only with its output cut to what the model accepts and its estimate within the
  -- ceiling of the role; if not, nothing changes. The calls end as the retry loop does, a returned
  -- response is usable, and the ledger has got a row for each of the answered calls, in their order,
  -- those with an unusable answer included, and nothing else has changed.
  pub complete-IsAccounted :
      (dumped : Message → ℕ) (provider : Provider) (max_attempts : ℕ) (request : ModelRequest)
      (db : Database)
      → let sent = clamp_max_tokens cfg request in
        ((ceiling : ℕ) → cfg.max_output_tokens ≡ some ceiling → sent.max_tokens ≤ ceiling)
        × IsAccounted dumped
            (provider sent cfg.model)
            max_attempts
            sent
            db
            (complete py dumped provider cfg max_attempts site request db)
  unfolding complete retry_with_backoff
  complete-IsAccounted dumped provider max_attempts request db =
      let sent = clamp_max_tokens cfg request in
      let answers = provider sent cfg.model in
      (
        clamp_max_tokens_le cfg request,
        elim (Bool-cases (ltb cfg.max_context_tokens (estimated_tokens dumped sent))) [
          | inl above ↦ rw (complete, above) (ground (arith, above), refl)
          | inr within ↦
              let (k, counted, same, usable) = ask_lem answers 0 max_attempts db in
              let fits : estimated_tokens dumped sent ≤ cfg.max_context_tokens =
                ground (arith, within) in
              let told =
                retry_with_backoff_lem is_retryable (λ n. outcome_of (answers n)) max_attempts in
              let k_calls : calls
                    (attempts_from is_retryable (λ n. outcome_of (answers n)) 0 max_attempts)
                  ≡ k =
                omega (arith, counted) in
              rw (complete, within, same)
                (fits, told, usable, ap (λ i. with_rows db (rows answers 0 i)) (sym k_calls))
        ],
      )
