-- ===== src/Models/Client/Messages.antt =====
-- The translation of a conversation to the format of OpenAI and back, in harness/models/client.py.
-- A JSON object is its members with their dumped values; `json` is an argument.
use dependabot_harness.Prelude.{
  String, Option, none, some, List, [], ◌∷◌, ◌++◌, map, Text, ◌==◌, string_eq, if◌then◌else◌,
}

abbrev pub Object : Type 0
Object = List (Text × Text)

pub record Json : Type 0 where
  pub dumps : Object → Text
  pub loads : Text → Option Object

pub record ToolUse : Type 0 where
  pub id : Text
  pub name : Text
  pub input : Object

-- A content block of the neutral format, which is Anthropic's.
pub data Block : Type 0 where
  text_block : Text → Block
  tool_use : ToolUse → Block
  tool_result : Text → Text → Block
  other_block : Block

pub data Content : Type 0 where
  text : Text → Content
  blocks : List Block → Content
  other_content : Content

pub record Message : Type 0 where
  pub role : String
  pub content : Content

-- A function call as OpenAI's messages have it, its arguments dumped.
pub record WireCall : Type 0 where
  pub id : Text
  pub name : Text
  pub arguments : Text

pub data WireMessage : Type 0 where
  plain : String → Text → WireMessage
  assistant : Option Text → List WireCall → WireMessage
  tool : Text → Text → WireMessage

-- The message of a completion's choice.
pub record ChatMessage : Type 0 where
  pub content : Option Text
  pub tool_calls : List WireCall

-- `_tool_arguments` of a string; one that does not parse is no arguments.
unfoldable pub tool_arguments : Json → Text → Object
tool_arguments json [] = []
tool_arguments json (c ∷ s) = elim (json.loads (c ∷ s)) [ none ↦ [] | some parsed ↦ parsed ]

abbrev pub call_block : Json → WireCall → Block
call_block json call =
    tool_use (record { id = call.id; name = call.name; input = tool_arguments json call.arguments })

abbrev pub text_blocks : Option Text → List Block
text_blocks none = []
text_blocks (some []) = []
text_blocks (some (c ∷ s)) = text_block (c ∷ s) ∷ []

-- `_neutral_blocks`
unfoldable pub neutral_blocks : Json → ChatMessage → List Block
neutral_blocks json message =
    text_blocks message.content ++ map (call_block json) message.tool_calls

-- `_tool_calls`
abbrev pub tool_uses : List Block → List ToolUse
tool_uses [] = []
tool_uses (tool_use use_block ∷ bs) = use_block ∷ tool_uses bs
tool_uses (_ ∷ bs) = tool_uses bs

unfoldable pub tool_calls : Json → ChatMessage → List ToolUse
unfolding neutral_blocks
tool_calls json message = tool_uses (neutral_blocks json message)

-- The two comprehensions of `_openai_assistant_turn`.
abbrev pub turn_text : List Block → Text
turn_text [] = []
turn_text (text_block t ∷ bs) = t ++ turn_text bs
turn_text (_ ∷ bs) = turn_text bs

abbrev pub turn_calls : Json → List Block → List WireCall
turn_calls json [] = []
turn_calls json (tool_use t ∷ bs) =
    record { id = t.id; name = t.name; arguments = json.dumps t.input } ∷ turn_calls json bs
turn_calls json (_ ∷ bs) = turn_calls json bs

abbrev pub message_of : Text → List WireCall → List WireMessage
message_of [] [] = []
message_of [] (c ∷ cs) = assistant none (c ∷ cs) ∷ []
message_of (c ∷ s) calls = assistant (some (c ∷ s)) calls ∷ []

-- `_openai_assistant_turn`
unfoldable pub openai_assistant_turn : Json → List Block → List WireMessage
openai_assistant_turn json bs = message_of (turn_text bs) (turn_calls json bs)

-- `_openai_tool_results`
unfoldable pub openai_tool_results : List Block → List WireMessage
openai_tool_results [] = []
openai_tool_results (tool_result id content ∷ bs) = tool id content ∷ openai_tool_results bs
openai_tool_results (_ ∷ bs) = openai_tool_results bs

unfoldable pub openai_message : Json → Message → List WireMessage
openai_message json m = elim m.content [
  | text t ↦ plain m.role t ∷ []
  | other_content ↦ []
  | blocks bs ↦
      if m.role == "assistant" then openai_assistant_turn json bs else openai_tool_results bs
]

-- `_openai_messages`, on the messages of the conversation.
unfoldable pub openai_messages : Json → List Message → List WireMessage
openai_messages json [] = []
openai_messages json (m ∷ ms) = openai_message json m ++ openai_messages json ms

-- `_neutral_stop_reason`, where OpenAI's words for a cut or a filtered answer become Anthropic's.
unfoldable pub neutral_stop_reason : Option String → Option String
neutral_stop_reason none = none
neutral_stop_reason (some reason) =
    if reason == "length"
    then some "max_tokens"
    else if reason == "content_filter"
    then some "refusal"
    else some reason
