-- ===== src/Ecosystem/Tree.antt =====
-- `DependencyTree.path_to` of harness/ecosystems/base.py, a search in breadth on fuel: `none` is that
-- the fuel does not reach. A path in the queue is beside its last package, `path[-1]`.
pub mod Path
pub mod Queue
pub mod Unseen
use dependabot_harness.Prelude.{
  ℕ, zero, suc, Bool, true, false, String, Option, none, some, List, [], ◌∷◌, ◌++◌, length,
  contains, ◌==◌, string_eq, if◌then◌else◌,
}
use dependabot_harness.Analysis.Shipped.{Graph, children}

abbrev pub QueuedPath : Type 0
QueuedPath = String × List String

pub data Expansion : Type 0 where
  found : List String → Expansion
  more : List String → List QueuedPath → Expansion

-- The inner loop, over the children of the path's last package.
unfoldable pub expand :
    String → List String → List String → List String → List QueuedPath → Expansion
expand wanted path [] seen queue = more seen queue
expand wanted path (child ∷ rest) seen queue =
    let grown = path ++ child ∷ [] in
    let skipped = expand wanted path rest seen queue in
    let pushed = expand wanted path rest (child ∷ seen) (queue ++ (child, grown) ∷ []) in
    if child == wanted then found grown else if contains seen child then skipped else pushed

unfoldable pub search_from :
    Graph → String → ℕ → List String → List QueuedPath → Option (List String)
search_from edges wanted fuel seen [] = some []
search_from edges wanted zero seen (path ∷ queue) = none
search_from edges wanted (suc fuel) seen ((last, path) ∷ queue) =
    elim (expand wanted path (children edges last) seen queue) [
      | found p ↦ some p
      | more later rest ↦ search_from edges wanted fuel later rest
    ]

-- The ends of all edges.
unfoldable pub targets : Graph → List String
targets [] = []
targets ((source, deps) ∷ edges) = deps ++ targets edges

-- `path_to`, with as much fuel as there are edges and one more, for the root.
unfoldable pub path_to : Graph → String → String → Option (List String)
path_to edges root wanted =
    search_from edges wanted (suc (length (targets edges))) (root ∷ []) ((root, root ∷ []) ∷ [])
