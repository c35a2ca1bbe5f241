-- ===== src/Tests/Client.antt =====
-- A model call with a retry, and a round with one tool, at concrete inputs.
use dependabot_harness.Prelude.{
  ℕ, ◌↔◌, ◌+◌, ◌≤◌, ◌≡◌, refl, true, false, none, some, [], ◌∷◌, ◌++◌, map, Text, codes, length,
  nat_beq, leb, ◌||◌, ◌&&◌, if◌then◌else◌,
}
use dependabot_harness.Tests.Samples.{empty_db}
use dependabot_harness.Models.Budget.{Usage}
use dependabot_harness.Models.Errors.{
  ResponseClass, transient, empty, refusal, truncated, config, Python, object, classify, is_usable,
}
use dependabot_harness.Models.Client.{
  ModelRequest, ModelConfig, Answer, answered, Provider, CallSite, complete, clamp_max_tokens,
}
use dependabot_harness.Models.Client.Ledgered.{IsAccounted, complete-IsAccounted}
use dependabot_harness.Version.Parse.{strip}
use dependabot_harness.Models.Client.Cut.{classify-cut}
use dependabot_harness.Models.Client.Messages.{
  neutral_stop_reason, Json, ToolUse, ChatMessage, blocks, neutral_blocks, tool_calls,
  openai_messages, message_of, tool_result, tool,
}
use dependabot_harness.Models.Client.Replay.{
  read_call, resent, IsCanonical, openai_messages-neutral_blocks,
}

abbrev pub ascii : Python
ascii = record {
  loads = λ text. if nat_beq (length text) 2 then some (λ key. none) else some (λ key. some object);
  is_word = λ c. nat_beq c 95 || leb 97 c && leb c 122;
  fold_case = λ c. if leb 65 c && leb c 90 then c + 32 else c;
}

overloaded_body :
    classify ascii (some (codes "  HTTP 529: Overloaded_Error. ")) none false ≡ transient
unfolding classify dependabot_harness.Version.Parse.strip
    dependabot_harness.Models.Errors.classify_body dependabot_harness.Models.Errors.as_json_object
    dependabot_harness.Models.Errors.is_markup dependabot_harness.Models.Errors.word_at
    dependabot_harness.Models.Errors.is_error_text dependabot_harness.Models.Errors.search_word
overloaded_body = refl

prose_body : classify ascii (some (codes "it enforces rate limiting")) none false ≡ ResponseClass.ok
unfolding classify dependabot_harness.Version.Parse.strip
    dependabot_harness.Models.Errors.classify_body dependabot_harness.Models.Errors.as_json_object
    dependabot_harness.Models.Errors.is_markup dependabot_harness.Models.Errors.word_at
    dependabot_harness.Models.Errors.is_error_text dependabot_harness.Models.Errors.search_word
prose_body = refl

error_object : classify ascii (some (codes "{\"error\": {}}")) none false ≡ transient
unfolding classify dependabot_harness.Version.Parse.strip
    dependabot_harness.Models.Errors.classify_body dependabot_harness.Models.Errors.as_json_object
    dependabot_harness.Models.Errors.transient_from_json
error_object = refl

cut_body : classify ascii (some (codes "{}")) (some "max_tokens") false ≡ truncated
unfolding classify dependabot_harness.Version.Parse.strip
    dependabot_harness.Models.Errors.classify_body dependabot_harness.Models.Errors.as_json_object
    dependabot_harness.Models.Errors.transient_from_json
cut_body = refl

silent_tool_call : classify ascii (some (codes "  ")) none true ≡ ResponseClass.ok
unfolding classify dependabot_harness.Version.Parse.strip
silent_tool_call = refl

abbrev small_usage : Usage
small_usage = record {
  tokens_in = 10;
  tokens_out = 5;
  cache_read_tokens = 0;
  cache_write_tokens = 0;
}

abbrev answer_of : Text → Answer
answer_of text = answered (record {
  text = text;
  usage = small_usage;
  stop_reason = none;
  model = "m";
  classification = ResponseClass.ok;
  tool_calls = [];
})

-- The first call meets an error page, the second succeeds.
abbrev pub recovering : Provider
recovering =
    λ request model n. if nat_beq n 0 then answer_of (codes "<html>") else answer_of (codes "done")

abbrev pub small_config : ModelConfig
small_config = record {
  model = "claude-sonnet-5";
  max_output_tokens = some 100;
  max_context_tokens = 50;
  pricing = none;
}

abbrev asking : ModelRequest
asking = record {
  system = codes "judge";
  user = codes "alert";
  max_tokens = 8000;
  cacheable_prefix = [];
  tools = 20 ∷ [];
  effort = none;
  history = [];
}

abbrev call_site : CallSite
call_site = record { run_id = "r1"; repo = "org/app"; stage = "judgment"; alert_key = some "k1" }

complete-IsAccounted_example :
    ((ceiling : ℕ)
      → small_config.max_output_tokens ≡ some ceiling
      → (clamp_max_tokens small_config asking).max_tokens ≤ ceiling)
    × IsAccounted ascii small_config call_site
        (λ m. 0)
        (recovering (clamp_max_tokens small_config asking) "claude-sonnet-5")
        3
        (clamp_max_tokens small_config asking)
        empty_db
        (complete ascii (λ m. 0) recovering small_config 3 call_site asking empty_db)
complete-IsAccounted_example =
    complete-IsAccounted ascii small_config call_site (λ m. 0) recovering 3 asking empty_db

abbrev sample_json : Json
sample_json = record {
  dumps = λ o. codes "{\"path\": \"a.go\"}";
  loads = λ s. elim s [ [] ↦ none | c ∷ r ↦ some ((codes "path", codes "\"a.go\"") ∷ []) ];
}

-- A vendor that leaves out the blank after the colon.
abbrev compact : ChatMessage
compact = record {
  content = some (codes "look");
  tool_calls =
      record { id = codes "t1"; name = codes "read_file"; arguments = codes "{\"path\":\"a.go\"}" }
      ∷ [];
}

openai_messages-neutral_blocks_example :
    let uses = tool_calls sample_json compact in
    (uses ≡ map (read_call sample_json) compact.tool_calls)
    × (openai_messages sample_json (
          record { role = "assistant"; content = blocks (neutral_blocks sample_json compact) }
          ∷ record {
            role = "user";
            content = blocks (map (λ (t : ToolUse). tool_result t.id (codes "1: line")) uses);
          }
          ∷ [])
        ≡ message_of (codes "look") (map (resent sample_json) compact.tool_calls)
          ++ tool (codes "t1") (codes "1: line") ∷ [])
    × ((map (resent sample_json) compact.tool_calls ≡ compact.tool_calls)
        ↔ IsCanonical sample_json compact.tool_calls)
openai_messages-neutral_blocks_example =
    openai_messages-neutral_blocks sample_json compact (λ t. codes "1: line")

classify-cut_example :
    (classify ascii (some (codes " ")) (neutral_stop_reason (some "length")) true
      ≡ ResponseClass.ok)
    ↔ ((strip (codes " ") ≡ []) × (true ≡ true))
classify-cut_example = classify-cut ascii (codes " ") true
