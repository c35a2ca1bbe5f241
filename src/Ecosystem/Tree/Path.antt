-- ===== src/Ecosystem/Tree/Path.antt =====
-- What `path_to` finds is a path of the tree, and the search ends.
use dependabot_harness.Prelude.{
  ℕ, zero, suc, ◌+◌, ◌≤◌, ◌≡◌, refl, sym, ap, subst, ◌⊎◌, inl, inr, true, false, String, Option,
  some, List, [], ◌∷◌, ◌++◌, length, contains, In, here, there, ◌==◌, string_eq, eq_iff, beq_refl,
  arith, Bool-cases,
}
use dependabot_harness.Analysis.Shipped.{Graph, children}
use dependabot_harness.Ecosystem.Tree.{
  QueuedPath, Expansion, found, more, expand, search_from, targets, path_to,
}
use dependabot_harness.Ecosystem.Tree.Unseen.{unseen, unseen_le, In-left, In-right}
use dependabot_harness.Ecosystem.Tree.Queue.{IsPath, start, step, AllPaths, Expands, expand-Expands}

module _ (edges : Graph) (root wanted : String) where
  abbrev IsDone : List String → String → Type 0
  IsDone seen c = (contains seen c ≡ true) × ((c == wanted) ≡ false)

  abbrev IsExpanded : List String → String → Type 0
  IsExpanded seen a = (c : String) → In c (children edges a) → IsDone seen c

  abbrev IsLast : List QueuedPath → String → Type 0
  IsLast queue a = (path : List String) × In (a, path) queue

  -- A package that is seen is at the end of a queued path, or all its children are seen.
  abbrev Waits : List String → List QueuedPath → String → Type 0
  Waits seen queue a = IsLast queue a ⊎ IsExpanded seen a

  abbrev Closes : Expansion → Type 0
  Closes (found p) = Unit
  Closes (more seen queue) =
      (contains seen root ≡ true) × ((a : String) → contains seen a ≡ true → Waits seen queue a)

  IsDone-cons : (seen : List String) (d c : String) → IsDone seen c → IsDone (d ∷ seen) c
  IsDone-cons seen d c (known, other) = (ground (arith, known), other)

  Waits-cons :
      (seen : List String) (queue : List QueuedPath) (one : QueuedPath) (d a : String)
      → Waits seen queue a
      → Waits (d ∷ seen) (queue ++ one ∷ []) a
  Waits-cons seen queue one d a (inl (path, m)) = inl (path, In-left (a, path) queue (one ∷ []) m)
  Waits-cons seen queue one d a (inr expanded) = inr (λ c m. IsDone-cons seen d c (expanded c m))

  IsDone-or_later :
      (c : String) (cs seen : List String) (x : String)
      → IsDone seen c
      → In x (c ∷ cs) ⊎ IsDone seen x
      → In x cs ⊎ IsDone seen x
  IsDone-or_later c cs seen x d (inl (here same)) = inr (subst (IsDone seen) (sym same) d)
  IsDone-or_later c cs seen x d (inl (there later)) = inl later
  IsDone-or_later c cs seen x d (inr old) = inr old

  -- The same with the package whose children are being looked at set aside.
  WaitsBut : String → List String → List QueuedPath → Type 0
  WaitsBut last seen queue =
      (contains seen root ≡ true)
      × ((a : String) → contains seen a ≡ true → (a ≡ last) ⊎ Waits seen queue a)

  WaitsBut-cons :
      (last : String) (seen : List String) (queue : List QueuedPath) (c : String)
      (path : List String)
      → WaitsBut last seen queue
      → WaitsBut last (c ∷ seen) (queue ++ (c, path) ∷ [])
  unfolding WaitsBut
  WaitsBut-cons last seen queue c path (known, waits) = (
    ground (arith, known),
    λ a m. elim (Bool-cases (a == c)) [
      | inl same ↦ inr (
          inl (
            path,
            In-right (a, path) queue ((c, path) ∷ [])
                (here (ap (λ x. (x, path)) ((eq_iff a c).0 same))),
          ))
      | inr other ↦ elim (waits a (ground (arith, m, other))) [
        | inl current ↦ inl current
        | inr w ↦ inr (Waits-cons seen queue (c, path) c a w)
      ]
    ],
  )

  expand-Closes :
      (last : String) (path cs seen : List String) (queue : List QueuedPath)
      → WaitsBut last seen queue
      → ((c : String) → In c (children edges last) → In c cs ⊎ IsDone seen c)
      → Closes (expand wanted path cs seen queue)
  unfolding expand WaitsBut
  expand-Closes last path [] seen queue (known, waits) rest = (
    known,
    λ a m. elim (waits a m) [
      | inl current ↦ inr (
          subst (IsExpanded seen) (sym current)
            (λ c l. elim (rest c l) [ inl none_left ↦ elim none_left [ ] | inr d ↦ d ]))
      | inr w ↦ w
    ],
  )
  expand-Closes last path (c ∷ cs) seen queue but rest = elim (Bool-cases (c == wanted)) [
    | inl same ↦ rw (expand, same) tt
    | inr other ↦ elim (Bool-cases (contains seen c)) [
      | inl old ↦
          rw (expand, other, old)
            (expand-Closes last path cs seen queue but
              (λ x m. IsDone-or_later c cs seen x (old, other) (rest x m)))
      | inr fresh ↦
          rw (expand, other, fresh)
            (expand-Closes last path cs (c ∷ seen) (queue ++ (c, path ++ c ∷ []) ∷ [])
              (WaitsBut-cons last seen queue c (path ++ c ∷ []) but)
              (λ x m.
                IsDone-or_later c cs (c ∷ seen) x (ground (arith, beq_refl c), other)
                  (elim (rest x m) [ inl l ↦ inl l | inr d ↦ inr (IsDone-cons seen c x d) ])))
    ]
  ]

  -- No edge leads to the package from a package that the root reaches.
  abbrev pub Unreachable : Type 0
  Unreachable =
      (a b : String) (path : List String)
      → IsPath edges root a path
      → In b (children edges a)
      → (b == wanted) ≡ false

  reached_seen :
      (seen : List String)
      → contains seen root ≡ true
      → ((a : String) → contains seen a ≡ true → IsExpanded seen a)
      → (a : String) (path : List String) → IsPath edges root a path
      → contains seen a ≡ true
  reached_seen seen known expanded a path start = known
  reached_seen seen known expanded a path (step x y before q m) =
      (expanded x (reached_seen seen known expanded x before q) y m).0

  abbrev Answers : Option (List String) → Type 0
  Answers o =
      (p : List String) × (o ≡ some p) × (((p ≡ []) × Unreachable) ⊎ IsPath edges root wanted p)

  after :
      (fuel bound : ℕ) (e : Expansion)
      → bound ≤ fuel
      → ((seen : List String) (queue : List QueuedPath)
          → AllPaths edges root wanted queue
          → Closes (more seen queue)
          → length queue + unseen (targets edges) seen ≤ fuel
          → Answers (search_from edges wanted fuel seen queue))
      → Expands edges root wanted bound e
      → Closes e
      → Answers
          (elim e [ found p ↦ some p | more later rest ↦ search_from edges wanted fuel later rest ])
  after fuel bound (found p) small search path closes = (p, refl, inr path)
  after fuel bound (more later rest) small search (all, left) closes =
      search later rest all closes (omega (arith, small, left))

  ended : (seen : List String) → Closes (more seen []) → Unreachable
  ended seen (known, waits) =
      let expanded : (a : String) → contains seen a ≡ true → IsExpanded seen a =
        λ a m. elim (waits a m) [ inl (path, l) ↦ elim l [ ] | inr e ↦ e ] in
      λ a b path p m. (expanded a (reached_seen seen known expanded a path p) b m).1

  set_aside :
      (last : String) (path seen : List String) (queue : List QueuedPath)
      → Closes (more seen ((last, path) ∷ queue))
      → WaitsBut last seen queue
  unfolding WaitsBut
  set_aside last path seen queue (known, waits) = (
    known,
    λ a m. elim (waits a m) [
      | inl (p, here same) ↦ inl (ap (λ x. x.0) same)
      | inl (p, there later) ↦ inr (inl (p, later))
      | inr e ↦ inr (inr e)
    ],
  )

  search_from-Answers :
      (fuel : ℕ) (seen : List String) (queue : List QueuedPath)
      → AllPaths edges root wanted queue
      → Closes (more seen queue)
      → length queue + unseen (targets edges) seen ≤ fuel
      → Answers (search_from edges wanted fuel seen queue)
  unfolding search_from
  search_from-Answers zero seen [] all closes enough = ([], refl, inl (refl, ended seen closes))
  search_from-Answers (suc fuel) seen [] all closes enough =
      ([], refl, inl (refl, ended seen closes))
  search_from-Answers zero seen ((last, path) ∷ queue) all closes enough =
      absurd (omega (arith, enough))
  search_from-Answers (suc fuel) seen ((last, path) ∷ queue) (first, rest) closes enough =
      let bound = length queue + unseen (targets edges) seen in
      after fuel bound (expand wanted path (children edges last) seen queue) (omega (arith, enough))
        (search_from-Answers fuel)
        (expand-Expands edges root wanted bound last path (children edges last) seen queue first
          (λ c m. m) rest (omega arith))
        (expand-Closes last path (children edges last) seen queue
          (set_aside last path seen queue closes) (λ c m. inl m))

-- The search of a dependency path ends. Its answer is a path of edges from the root to the package,
-- or it is empty, and then no edge leads to the package from one that the root reaches.
pub path_to-IsPath :
    (edges : Graph) (root wanted : String)
    → (p : List String) × (path_to edges root wanted ≡ some p)
      × (((p ≡ []) × Unreachable edges root wanted) ⊎ IsPath edges root wanted p)
unfolding path_to
path_to-IsPath edges root wanted =
    search_from-Answers edges root wanted (suc (length (targets edges))) (root ∷ [])
      ((root, root ∷ []) ∷ []) (start, tt)
      (
        ground (arith, beq_refl root),
        λ a m.
            inl
              (root ∷ [], here (ap (λ x. (x, root ∷ [])) ((eq_iff a root).0 (ground (arith, m))))),
      )
      (omega (arith, unseen_le (targets edges) (root ∷ [])))
