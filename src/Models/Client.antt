-- ===== src/Models/Client.antt =====
-- `ModelClient` of harness/models/client.py. The provider is an argument: what its call number `n`
-- with a request does. Log lines are left out.

pub mod Ledgered
pub mod Messages
pub mod Cut
pub mod Replay
use dependabot_harness.Prelude.{
  ℕ, zero, suc, ◌+◌, ◌/◌, Bool, true, false, not, ◌&&◌, ◌||◌, String, Option, none, some, List, [],
  ◌∷◌, Text, length, leb, ltb, if◌then◌else◌, Result, ok, err, ◌==◌, string_eq,
}
use dependabot_harness.Prelude.Sums.{sum_where}
use dependabot_harness.Database.{Database}
use dependabot_harness.Models.Budget.{Usage, Rates, record_call}
use dependabot_harness.Models.Errors.{
  ResponseClass, transient, config, is_retryable, is_usable, Python, classify, ProviderException,
  is_permanent_provider_error,
}
use dependabot_harness.Models.Client.Messages.{Message, ToolUse}
use dependabot_harness.Util.Retry.{Attempt, returned, raised, Ending, value, reraised, exhausted}

-- A tool's declaration, by the length of its `json.dumps`.
pub record ModelRequest : Type 0 where
  pub system : Text
  pub user : Text
  pub max_tokens : ℕ
  pub cacheable_prefix : Text
  pub tools : List ℕ
  pub effort : Option String
  pub history : List Message

pub record ModelResponse : Type 0 where
  pub text : Text
  pub usage : Usage
  pub stop_reason : Option String
  pub model : String
  pub classification : ResponseClass
  pub tool_calls : List ToolUse

pub record ModelConfig : Type 0 where
  pub model : String
  pub max_output_tokens : Option ℕ
  pub max_context_tokens : ℕ
  pub pricing : Option Rates

-- What a call of the provider does: it returns, or it raises a ModelError or another exception.
pub data Answer : Type 0 where
  answered : ModelResponse → Answer
  model_error : ResponseClass → Answer
  threw : ProviderException → Answer

abbrev pub Provider : Type 0
Provider = ModelRequest → String → ℕ → Answer

abbrev chars_per_token : ℕ
chars_per_token = 3

-- `estimated_tokens`; the length of a message's `json.dumps` is an argument.
unfoldable pub estimated_tokens : (Message → ℕ) → ModelRequest → ℕ
estimated_tokens dumped request =
    (length request.system
      + length request.user
      + length request.cacheable_prefix
      + sum_where (λ t. true) (λ t. t) request.tools
      + sum_where (λ m. true) dumped request.history)
    / chars_per_token

-- `_clamp_max_tokens`
unfoldable pub clamp_max_tokens : ModelConfig → ModelRequest → ModelRequest
clamp_max_tokens cfg request = elim cfg.max_output_tokens [
  | none ↦ request
  | some ceiling ↦
      if leb request.max_tokens ceiling then request else record request { max_tokens = ceiling }
]

-- `_classify_provider_exception`
unfoldable pub classify_provider_exception : ProviderException → ResponseClass
classify_provider_exception exc = if is_permanent_provider_error exc then config else transient

abbrev is_empty : {A : Type 0} → List A → Bool
is_empty [] = true
is_empty (x ∷ xs) = false

abbrev pub classified : Python → ModelResponse → ModelResponse
classified py r = record r {
  classification = classify py (some r.text) r.stop_reason (not (is_empty r.tool_calls));
}

-- Where a call is for: the run of the ledger, and the arguments of `complete`.
pub record CallSite : Type 0 where
  pub run_id : String
  pub repo : String
  pub stage : String
  pub alert_key : Option String

abbrev pub record_response : ModelConfig → CallSite → ModelResponse → Database → Database
record_response cfg site r db =
    record_call site.run_id site.repo site.stage cfg.model r.usage site.alert_key cfg.pricing db

-- `once`: an answered call is on the ledger before it is returned or refused.
unfoldable pub once :
    Python
    → ModelConfig
    → CallSite
    → Answer
    → Database
    → Attempt ResponseClass ModelResponse × Database
once py cfg site (model_error kind) db = (raised kind, db)
once py cfg site (threw exc) db = (raised (classify_provider_exception exc), db)
once py cfg site (answered raw) db =
    let response = classified py raw in
    let after = record_response cfg site response db in
    if is_usable response.classification
    then (returned response, after)
    else (raised response.classification, after)

-- `retry_with_backoff(once, ...)` from attempt number `n`, on the ledger's database. (ModelError is
-- the one exception of `once`.)
unfoldable pub ask :
    Python
    → ModelConfig
    → CallSite
    → (ℕ → Answer)
    → ℕ
    → ℕ
    → Database
    → Ending ResponseClass ModelResponse × Database
ask py cfg site answers n zero db = (exhausted n, db)
ask py cfg site answers n (suc left) db =
    let (attempt, after) = once py cfg site (answers n) db in
    let rest = ask py cfg site answers (n + 1) left after in
    elim attempt [
      | returned response ↦ (value (n + 1) response, after)
      | Attempt.uncaught kind ↦ (reraised (n + 1) kind, after)
      | raised kind ↦ if is_retryable kind then rest else (reraised (n + 1) kind, after)
    ]

-- How `complete` ends: ContextCeilingExceeded with the estimate, or as the retry loop does.
pub data Completion : Type 0 where
  context_ceiling_exceeded : ℕ → Completion
  ended : Ending ResponseClass ModelResponse → Completion

-- `complete`
unfoldable pub complete :
    Python
    → (Message → ℕ)
    → Provider
    → ModelConfig
    → ℕ
    → CallSite
    → ModelRequest
    → Database
    → Completion × Database
complete py dumped provider cfg max_attempts site request db =
    let clamped = clamp_max_tokens cfg request in
    let estimated = estimated_tokens dumped clamped in
    let (end, after) = ask py cfg site (provider clamped cfg.model) 0 max_attempts db in
    if ltb cfg.max_context_tokens estimated
    then (context_ceiling_exceeded estimated, db)
    else (ended end, after)

-- `PROVIDER_API_KEY_ENV`, which has the keys of `PROVIDERS`
unfoldable pub required_api_key_env : String → Option String
required_api_key_env name =
    if name == "anthropic"
    then some "ANTHROPIC_API_KEY"
    else if name == "openai"
    then some "OPENAI_API_KEY"
    else if name == "deepseek"
    then some "DEEPSEEK_API_KEY"
    else none

pub data ProviderError : Type 0 where
  unknown_provider provider_configuration : String → ProviderError

-- `build_provider`: the name of the class, and the key that it is given.
unfoldable pub build_provider :
    (String → Option Text) → String → Result ProviderError (String × Text)
unfolding required_api_key_env
build_provider environ name = elim (required_api_key_env name) [
  | none ↦ err (unknown_provider name)
  | some env_var ↦ elim (environ env_var) [
    | none ↦ err (provider_configuration env_var)
    | some [] ↦ err (provider_configuration env_var)
    | some (c ∷ s) ↦ ok (name, c ∷ s)
  ]
]
