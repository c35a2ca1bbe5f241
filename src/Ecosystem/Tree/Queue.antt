-- ===== src/Ecosystem/Tree/Queue.antt =====
-- The queue of the search holds paths, and its rounds take away from what is left to do.
use dependabot_harness.Prelude.{
  ℕ, ◌+◌, ◌≤◌, refl, subst, inl, inr, String, List, [], ◌∷◌, ◌++◌, length, contains, In, here,
  there, ◌==◌, string_eq, eq_iff, arith, Bool-cases,
}
use dependabot_harness.Analysis.Shipped.{Graph, children}
use dependabot_harness.Ecosystem.Tree.{QueuedPath, Expansion, found, more, expand, targets}
use dependabot_harness.Ecosystem.Tree.Unseen.{unseen, unseen_drop, children-targets, length-snoc}

-- A path of edges from the root to a package.
pub data IsPath (edges : Graph) (root : String) : String → List String → Type 0 where
  start : IsPath edges root root (root ∷ [])
  step :
      (a b : String) (path : List String)
      → IsPath edges root a path
      → In b (children edges a)
      → IsPath edges root b (path ++ b ∷ [])

module _ (edges : Graph) (root wanted : String) where
  abbrev pub AllPaths : List QueuedPath → Type 0
  AllPaths [] = Unit
  AllPaths ((last, path) ∷ queue) = IsPath edges root last path × AllPaths queue

  AllPaths-snoc :
      (queue : List QueuedPath) (last : String) (path : List String)
      → AllPaths queue
      → IsPath edges root last path
      → AllPaths (queue ++ (last, path) ∷ [])
  AllPaths-snoc [] last path all one = (one, tt)
  AllPaths-snoc ((l, p) ∷ queue) last path (first, rest) one =
      (first, AllPaths-snoc queue last path rest one)

  -- An answer is a path; otherwise the queue holds paths, and no more is left to do than before.
  abbrev pub Expands : ℕ → Expansion → Type 0
  Expands bound (found p) = IsPath edges root wanted p
  Expands bound (more seen queue) =
      AllPaths queue × (length queue + unseen (targets edges) seen ≤ bound)

  pub expand-Expands :
      (bound : ℕ) (last : String) (path cs seen : List String) (queue : List QueuedPath)
      → IsPath edges root last path
      → ((c : String) → In c cs → In c (children edges last))
      → AllPaths queue
      → length queue + unseen (targets edges) seen ≤ bound
      → Expands bound (expand wanted path cs seen queue)
  unfolding expand
  expand-Expands bound last path [] seen queue reached within all small = (all, small)
  expand-Expands bound last path (c ∷ cs) seen queue reached within all small =
      let grown = path ++ c ∷ [] in
      let one = step last c path reached (within c (here refl)) in
      elim (Bool-cases (c == wanted)) [
        | inl same ↦
            rw (expand, same)
              (subst (λ x. IsPath edges root x grown) ((eq_iff c wanted).0 same) one)
        | inr other ↦ elim (Bool-cases (contains seen c)) [
          | inl old ↦
              rw (expand, other, old)
                (expand-Expands bound last path cs seen queue reached (λ x m. within x (there m))
                  all small)
          | inr fresh ↦
              rw (expand, other, fresh)
                (expand-Expands bound last path cs (c ∷ seen) (queue ++ (c, grown) ∷ []) reached
                  (λ x m. within x (there m)) (AllPaths-snoc queue c grown all one)
                  (omega (
                    arith,
                    small,
                    length-snoc queue (c, grown),
                    unseen_drop (targets edges) seen c
                        (children-targets edges last c (within c (here refl))) fresh,
                  )))
        ]
      ]
