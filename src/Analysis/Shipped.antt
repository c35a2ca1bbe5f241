-- ===== src/Analysis/Shipped.antt =====
-- harness/analysis/shipped.py: the packages that a bundle holds, as the closure of the imports over
-- the lockfile's graph. Sets are lists without an order; reading the lockfile and the sources, and
-- the Go toolchain's answer, are outside.
pub mod Closure
use dependabot_harness.Prelude.{
  ℕ, zero, suc, ◌+◌, Bool, true, false, not, String, Option, none, some, List, [], ◌∷◌, ◌++◌,
  length, filter, any, is_some, contains, ◌==◌, string_eq, if◌then◌else◌,
}

-- Each package with the packages it depends on.
abbrev pub Graph : Type 0
Graph = List (String × List String)

-- `graph.get(node, ())`
unfoldable pub children : Graph → String → List String
children [] node = []
children ((k, deps) ∷ graph) node = if k == node then deps else children graph node

-- `node in graph`
unfoldable pub in_graph : Graph → String → Bool
in_graph graph node = any (λ (k, deps). k == node) graph

abbrev pub new_children : Graph → String → List String → List String
new_children graph node seen = filter (λ child. not (contains seen child)) (children graph node)

-- The loop of `_closure`, on fuel: `none` is that the fuel does not reach.
unfoldable pub walk : Graph → ℕ → List String → List String → Option (List String)
walk graph fuel seen [] = some seen
walk graph zero seen (node ∷ stack) = none
walk graph (suc fuel) seen (node ∷ stack) =
    let skipped = walk graph fuel seen stack in
    let visited = walk graph fuel (node ∷ seen) (new_children graph node (node ∷ seen) ++ stack) in
    if contains seen node then skipped else visited

-- The edges out of the packages that are not seen.
unfoldable pub unseen_edges : Graph → List String → ℕ
unseen_edges [] seen = 0
unseen_edges ((k, deps) ∷ graph) seen =
    (if contains seen k then 0 else length deps) + unseen_edges graph seen

-- `_closure`, with as much fuel as there are seeds and edges.
unfoldable pub closure : Graph → List String → Option (List String)
unfolding walk
closure graph seeds =
    let stack = filter (in_graph graph) seeds in
    walk graph (length stack + unseen_edges graph []) [] stack

-- `npm_shipped` after the lockfile and the sources have been read: an empty answer is none.
unfoldable pub npm_shipped : Graph → List String → Option (List String)
npm_shipped [] imports = none
npm_shipped (node ∷ graph) imports = elim (closure (node ∷ graph) imports) [
  | none ↦ none
  | some found ↦ elim found [ [] ↦ none | k ∷ ks ↦ some (k ∷ ks) ]
]
