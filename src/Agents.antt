-- ===== src/Agents.antt =====
-- harness/agents: the toolbox with its call cap (toolbox.py) and the loop that drives one agent
-- (loop.py). What a tool answers and what the model answers are arguments.
pub mod Cap
pub mod Files
use dependabot_harness.Prelude.{
  ℕ, zero, suc, ◌+◌, ◌-◌, Bool, true, false, String, Option, none, some, List, [], ◌∷◌, ◌++◌,
  length, nat_beq, ◌==◌, string_eq, Result, ok, err, if◌then◌else◌,
}

pub data Tool : Type 0 where
  read_file grep fetch_advisory : Tool

-- The table of `dispatch`.
unfoldable pub tool_of : String → Option Tool
tool_of name =
    if name == "read_file"
    then some read_file
    else if name == "grep"
    then some grep
    else if name == "fetch_advisory"
    then some fetch_advisory
    else none

pub record ToolCall : Type 0 where
  pub name : String
  pub arguments : String
  pub result : String
  pub error : Option String

pub record Toolbox : Type 0 where
  pub max_calls : ℕ
  pub calls : List ToolCall

-- `used`, and `remaining`, whose `max(0, ...)` is the subtraction of natural numbers.
unfoldable pub used : Toolbox → ℕ
used box = length box.calls

unfoldable pub remaining : Toolbox → ℕ
unfolding used
remaining box = box.max_calls - used box

unfoldable pub exhausted : Toolbox → Bool
unfolding remaining
exhausted box = nat_beq (remaining box) 0

-- What a handler gives: its text, or the message of the exception that it raises.
abbrev pub Handler : Type 0
Handler = Tool → String → Result String String

abbrev called : String → String → String → Option String → Toolbox → Toolbox
called name arguments result error box = record box {
  calls =
      box.calls
      ++ record { name = name; arguments = arguments; result = result; error = error } ∷ [];
}

-- The end of `dispatch`: the call is recorded whether the handler raises or not.
answer : String → String → Result String String → Toolbox → String × Toolbox
answer name arguments (ok text) box = (text, called name arguments text none box)
answer name arguments (err message) box =
    ("error", called name arguments "error" (some message) box)

-- `dispatch`; `none` is ToolCallCapReached. (The text of an error is a constant here.)
unfoldable pub dispatch : Handler → String → String → Toolbox → Option (String × Toolbox)
unfolding answer
dispatch handle name arguments box = if exhausted box then none else elim (tool_of name) [
  | none ↦
      some (
        "error: unknown tool",
        called name arguments "error: unknown tool" (some "unknown tool") box,
      )
  | some tool ↦ some (answer name arguments (handle tool arguments) box)
]

-- One tool call that a model's answer asks for.
pub record Request : Type 0 where
  pub name : String
  pub arguments : String

pub record ModelResponse : Type 0 where
  pub text : String
  pub tool_calls : List Request

-- One turn of the history: the model's answer and the results fed back.
pub record Turn : Type 0 where
  pub assistant : ModelResponse
  pub results : List String

-- `client.complete` on the request's history, or the class of exception that it raises.
abbrev pub Client : Type 0
Client = List Turn → Result String ModelResponse

pub record LoopResult : Type 0 where
  pub response : ModelResponse
  pub cap_reached : Bool

-- The inner loop: the results, unless the cap was reached, and the toolbox either way.
unfoldable pub run_calls : Handler → List Request → Toolbox → Option (List String) × Toolbox
run_calls handle [] box = (some [], box)
run_calls handle (call ∷ calls) box = elim (dispatch handle call.name call.arguments box) [
  | none ↦ (none, box)
  | some (output, after) ↦
      let (results, last) = run_calls handle calls after in
      (elim results [ none ↦ none | some rest ↦ some (output ∷ rest) ], last)
]

-- `run_agent_loop`, on fuel: `none` is that the fuel does not reach.
unfoldable pub run_agent_loop :
    Client → Handler → ℕ → List Turn → Toolbox → Option (Result String LoopResult × Toolbox)
run_agent_loop client handle zero history box = none
run_agent_loop client handle (suc fuel) history box = elim (client history) [
  | err e ↦ some (err e, box)
  | ok response ↦ elim response.tool_calls [
    | [] ↦ some (ok (record { response = response; cap_reached = false }), box)
    | call ∷ calls ↦
        let (results, after) = run_calls handle (call ∷ calls) box in
        elim results [
          | none ↦ some (ok (record { response = response; cap_reached = true }), after)
          | some outputs ↦
              run_agent_loop client handle fuel
                (history ++ record { assistant = response; results = outputs } ∷ []) after
        ]
  ]
]
