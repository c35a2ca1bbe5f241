-- ===== src/Models/Client/Replay.antt =====
-- A round with tools, sent back in the format of OpenAI.
use mathlib.Core.List.{append-nil}
use dependabot_harness.Prelude.{
  ◌≡◌, refl, ap, ap₂, ◌∙◌, ◌↔◌, Option, none, some, List, [], ◌∷◌, ◌++◌, map, Text,
}
use dependabot_harness.Models.Client.Messages.{
  Json, ToolUse, Block, tool_use, tool_result, blocks, WireCall, WireMessage, tool, ChatMessage,
  tool_arguments, call_block, text_blocks, neutral_blocks, tool_uses, tool_calls, turn_text,
  turn_calls, message_of, openai_assistant_turn, openai_tool_results, openai_message,
  openai_messages,
}

abbrev pub text_of : Option Text → Text
text_of none = []
text_of (some s) = s

module _ (json : Json) where
  -- A vendor's call as the toolbox gets it.
  abbrev pub read_call : WireCall → ToolUse
  read_call c = record { id = c.id; name = c.name; input = tool_arguments json c.arguments }

  -- The call with what was read of its arguments, dumped again.
  abbrev pub resent : WireCall → WireCall
  resent c = record {
    id = c.id;
    name = c.name;
    arguments = json.dumps (tool_arguments json c.arguments);
  }

  -- The arguments of each call are spelled as the program dumps what it reads of them.
  abbrev pub IsCanonical : List WireCall → Type 0
  IsCanonical [] = Unit
  IsCanonical (c ∷ cs) =
      (json.dumps (tool_arguments json c.arguments) ≡ c.arguments) × IsCanonical cs

  call_blocks :
      (calls : List WireCall)
      → map (call_block json) calls ≡ map (λ (c : WireCall). tool_use (read_call c)) calls
  call_blocks [] = refl
  call_blocks (c ∷ cs) = ap (λ (r : List Block). tool_use (read_call c) ∷ r) (call_blocks cs)

  tool_uses-calls :
      (calls : List WireCall) → tool_uses (map (call_block json) calls) ≡ map read_call calls
  tool_uses-calls [] = refl
  tool_uses-calls (c ∷ cs) = ap (λ (r : List ToolUse). read_call c ∷ r) (tool_uses-calls cs)

  turn_text-calls : (calls : List WireCall) → turn_text (map (call_block json) calls) ≡ []
  turn_text-calls [] = refl
  turn_text-calls (c ∷ cs) = turn_text-calls cs

  turn_calls-calls :
      (calls : List WireCall) → turn_calls json (map (call_block json) calls) ≡ map resent calls
  turn_calls-calls [] = refl
  turn_calls-calls (c ∷ cs) = ap (λ (r : List WireCall). resent c ∷ r) (turn_calls-calls cs)

  tool_results-answers :
      (answer : ToolUse → Text) (calls : List WireCall)
      → openai_tool_results (map (λ t. tool_result t.id (answer t)) (map read_call calls))
        ≡ map (λ c. tool c.id (answer (read_call c))) calls
  unfolding openai_tool_results
  tool_results-answers answer [] = refl
  tool_results-answers answer (c ∷ cs) =
      ap (λ (r : List WireMessage). tool c.id (answer (read_call c)) ∷ r)
        (tool_results-answers answer cs)

  turn_of :
      (content : Option Text) (calls : List WireCall)
      → openai_assistant_turn json (text_blocks content ++ map (call_block json) calls)
        ≡ message_of (text_of content) (map resent calls)
  unfolding openai_assistant_turn
  turn_of none calls = ap₂ message_of (turn_text-calls calls) (turn_calls-calls calls)
  turn_of (some []) calls = ap₂ message_of (turn_text-calls calls) (turn_calls-calls calls)
  turn_of (some (c ∷ s)) calls =
      ap₂ message_of (ap (λ (r : Text). (c ∷ s) ++ r) (turn_text-calls calls) ∙ append-nil (c ∷ s))
        (turn_calls-calls calls)

  uses_of :
      (content : Option Text) (calls : List WireCall)
      → tool_uses (text_blocks content ++ map (call_block json) calls) ≡ map read_call calls
  uses_of none calls = tool_uses-calls calls
  uses_of (some []) calls = tool_uses-calls calls
  uses_of (some (c ∷ s)) calls = tool_uses-calls calls

  resent_iff : (calls : List WireCall) → (map resent calls ≡ calls) ↔ IsCanonical calls
  resent_iff [] = (λ h. tt, λ h. refl)
  resent_iff (c ∷ cs) =
      let (into, out) = resent_iff cs in
      (
        λ h. (ap (λ (l : List WireCall). first_arguments l) h, into (ap rest_of h)),
        λ (e, es).
            ap₂ {A = WireCall} {B = List WireCall} (λ x xs. x ∷ xs)
              (ap (λ (a : Text). record { id = c.id; name = c.name; arguments = a }) e) (out es),
      )
    where
      first_arguments : List WireCall → Text
      first_arguments [] = []
      first_arguments (c ∷ cs) = c.arguments

      rest_of : List WireCall → List WireCall
      rest_of [] = []
      rest_of (c ∷ cs) = cs

  -- A message with tool calls of a vendor of OpenAI's format is read as those calls, in order, each
  -- with its id, its name and what loads from its arguments, where arguments that do not load are
  -- none. Sent back with the tools' answers it is a message with the same text and the same calls,
  -- but for the arguments, which are dumped anew; an empty text is none, and a message without text
  -- and calls is left out. Then comes one message for each call, in order, with the call's id and its
  -- answer. The calls that are sent back are the vendor's own exactly when each one's arguments are
  -- spelled as the program dumps what it reads of them.
  pub openai_messages-neutral_blocks :
      (message : ChatMessage) (answer : ToolUse → Text)
      → let uses = tool_calls json message in
        (uses ≡ map read_call message.tool_calls)
        × (openai_messages json (
              record { role = "assistant"; content = blocks (neutral_blocks json message) }
              ∷ record {
                role = "user";
                content = blocks (map (λ t. tool_result t.id (answer t)) uses);
              }
              ∷ [])
            ≡ message_of (text_of message.content) (map resent message.tool_calls)
              ++ map (λ c. tool c.id (answer (read_call c))) message.tool_calls)
        × ((map resent message.tool_calls ≡ message.tool_calls) ↔ IsCanonical message.tool_calls)
  unfolding openai_messages openai_message tool_calls neutral_blocks
  openai_messages-neutral_blocks message answer =
      let uses = uses_of message.content message.tool_calls in
      let results =
        λ (ts : List ToolUse). openai_tool_results (map (λ t. tool_result t.id (answer t)) ts) in
      (
        uses,
        ap₂ (λ (a b : List WireMessage). a ++ b) (turn_of message.content message.tool_calls)
            (append-nil (results (tool_calls json message))
              ∙ ap results uses
              ∙ tool_results-answers answer message.tool_calls),
        resent_iff message.tool_calls,
      )
