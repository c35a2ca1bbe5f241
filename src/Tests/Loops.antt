-- ===== src/Tests/Loops.antt =====
-- The agent loop with its tools, the retry loop, the closure and the dependency path at concrete inputs.
use dependabot_harness.Prelude.{
  ℕ, ◌≡◌, refl, ◌↔◌, ◌⊎◌, true, String, some, List, [], ◌∷◌, contains, string_eq, arith, ok,
  nat_beq, if◌then◌else◌, Bool, Text, Option, none, codes, length, ◌≤◌, ◌<◌, ◌+◌, In, nat_eq,
  text_eq,
}
use dependabot_harness.Agents.{Toolbox, Handler, Client, used, run_agent_loop}
use dependabot_harness.Agents.Cap.{Ends, run_agent_loop-Ends}
use dependabot_harness.Agents.Files.{
  RepoFile, WalkedFile, Match, pos, lines_of, read_file, grep_files, no_files, max_grep_matches,
  max_grep_files, max_grep_bytes, max_file_bytes,
}
use dependabot_harness.Agents.Files.Window.{Shows, read_file-Shows}
use dependabot_harness.Agents.Files.Matches.{IsMatchIn, grep_files-IsBounded}
use dependabot_harness.Util.Retry.{Attempt, raised, returned}
use dependabot_harness.Ecosystem.Tree.{path_to}
use dependabot_harness.Ecosystem.Tree.Queue.{IsPath}
use dependabot_harness.Ecosystem.Tree.Path.{Unreachable, path_to-IsPath}
use dependabot_harness.Analysis.Shipped.{Graph, closure}
use dependabot_harness.Analysis.Shipped.Closure.{Reaches, closure-Reaches}

-- A model that always asks for another file.
abbrev restless : Client
restless = λ history.
    ok (record { text = ""; tool_calls = record { name = "read_file"; arguments = "a.go" } ∷ [] })

abbrev reading : Handler
reading = λ tool arguments. ok "1: line"

abbrev small_box : Toolbox
small_box = record { max_calls = 2; calls = [] }

run_agent_loop-Ends_example : Ends small_box (run_agent_loop restless reading 3 [] small_box)
unfolding used
run_agent_loop-Ends_example =
    run_agent_loop-Ends restless reading 3 [] small_box (omega arith) (omega arith)

abbrev third_time : ℕ → Attempt String ℕ
third_time n = if nat_beq n 2 then returned 7 else raised "overloaded"

abbrev sample_graph : Graph
sample_graph = ("app", "util" ∷ []) ∷ ("util", "app" ∷ []) ∷ ("dev", "util" ∷ []) ∷ []

sample_closure : closure sample_graph ("app" ∷ "absent" ∷ []) ≡ some ("util" ∷ "app" ∷ [])
unfolding closure dependabot_harness.Analysis.Shipped.in_graph
    dependabot_harness.Analysis.Shipped.unseen_edges dependabot_harness.Analysis.Shipped.children
sample_closure = refl

closure-Reaches_example :
    (found : List String) × (closure sample_graph ("app" ∷ []) ≡ some found)
    × ((x : String) → (contains found x ≡ true) ↔ Reaches sample_graph ("app" ∷ []) x)
closure-Reaches_example = closure-Reaches sample_graph ("app" ∷ [])

sample_path : path_to sample_graph "dev" "app" ≡ some ("dev" ∷ "util" ∷ "app" ∷ [])
unfolding path_to dependabot_harness.Analysis.Shipped.children
    dependabot_harness.Ecosystem.Tree.targets dependabot_harness.Ecosystem.Tree.search_from
    dependabot_harness.Ecosystem.Tree.expand
sample_path = refl

path_to-IsPath_example :
    (p : List String) × (path_to sample_graph "dev" "app" ≡ some p)
    × (((p ≡ []) × Unreachable sample_graph "dev" "app") ⊎ IsPath sample_graph "dev" "app" p)
path_to-IsPath_example = path_to-IsPath sample_graph "dev" "app"

abbrev source_file : RepoFile
source_file = record {
  is_file = true;
  size = ok 40;
  lines = codes "package main" ∷ codes "func main() {}" ∷ [];
}

abbrev resolving : Text → Option RepoFile
resolving path = some source_file

second_line :
    read_file (some resolving) (codes "main.go") (some (pos 2)) none
    ≡ lines_of 2 (pos 2) ((2, codes "func main() {}") ∷ [])
unfolding read_file dependabot_harness.Agents.Files.read_lines
    dependabot_harness.Agents.Files.first_line dependabot_harness.Agents.Files.numbered
    dependabot_harness.Agents.Files.range_length dependabot_harness.Agents.Files.last_line
second_line = refl

read_file-Shows_example :
    Shows resolving
      (codes "main.go")
      (read_file (some resolving) (codes "main.go") (some (pos 2)) none)
read_file-Shows_example = read_file-Shows resolving (codes "main.go") (some (pos 2)) none

abbrev walked : List WalkedFile
walked =
    record { path = codes "main.go"; resolves = true; size = ok 40; lines = ok source_file.lines }
    ∷ []

abbrev mentions_main : Text → Bool
mentions_main line = contains line b'm'

grep_files-IsBounded_example :
    let s = grep_files mentions_main (λ path. true) walked no_files in
    (length s.matches ≤ max_grep_matches)
    × (s.scanned ≤ max_grep_files)
    × (s.loaded < max_grep_bytes + max_file_bytes)
    × ((m : Match)
        → In m s.matches
        → (file : WalkedFile) × In file walked × IsMatchIn mentions_main (λ path. true) file m)
grep_files-IsBounded_example = grep_files-IsBounded mentions_main (λ path. true) walked
